-- ===== src/Discovery/Service/Laws.antt =====
-- internal/discovery/service.go: who is registered, and what becomes of the token.
use fidex_go_node.Common.{ℕ, ◌≤◌, String, false, some, suc, ◌≡◌, ◌≢◌, inl, inr, arith, eq_iff}
use fidex_go_node.Errors.{Error, ok, Result-cases}
use fidex_go_node.Domain.{Partner}
use fidex_go_node.Crypto.{Jose}
use fidex_go_node.Store.{Fault, Driver}
use fidex_go_node.Store.Table.{find_row}
use fidex_go_node.Store.Partners
use fidex_go_node.Store.Partners.{Partners, set_columns, row_of}
use fidex_go_node.Discovery.Tokens.{TokenStore, Token, validate_and_consume, view, validate_twice}
use fidex_go_node.Discovery.Service.{
  RegistrationRequest, World, fetch_partner_keys, requested, register_partner,
  handle_webhook_registration,
}

module _ (jose : Jose) (driver : Driver) (world : World) (lookup write : Fault) (ts : TokenStore)
    (partners : Partners) (req : RegistrationRequest) where
  -- Whatever a registration comes to, its token is refused ever after, until it is issued again.
  registration_spends_token :
      (later : ℕ)
      → (validate_and_consume later
          (handle_webhook_registration jose driver world lookup write ts partners req).0
          req.security_token).1
        ≡ false
  unfolding handle_webhook_registration
  registration_spends_token later =
      ground (arith, validate_twice world.now later ts req.security_token)

  register_partner_err :
      (p : Partner) (e : Error)
      → (register_partner jose driver world lookup write partners p).1 ≡ some e
      → (register_partner jose driver world lookup write partners p).0 ≡ partners
  unfolding register_partner Partners.get_by_id Partners.update Partners.create
  register_partner_err p e h = ground (arith, eq_iff p.partner_id "")

  -- A registration that ends in an error changes no partner.
  registration_err :
      (e : Error)
      → (handle_webhook_registration jose driver world lookup write ts partners req).2 ≡ some e
      → (handle_webhook_registration jose driver world lookup write ts partners req).1 ≡ partners
  unfolding handle_webhook_registration
  registration_err e h = elim (Result-cases (fetch_partner_keys jose driver world req.jwks_uri)) [
    | inr (problem, failed) ↦ ground arith
    | inl (jwks, fetched) ↦
        ground (arith, register_partner_err (requested jose driver world req jwks) e)
  ]

  abbrev columns_of : String → Partner
  columns_of jwks = record (requested jose driver world req jwks) { updated_at = world.now }

  abbrev new_row : String → Partner
  new_row jwks =
      row_of (suc partners.sequence) (record (columns_of jwks) { created_at = world.now })

  -- What a successful registration has established.
  pub record Registered : Type 0 where
    pub token : Token
    pub issued : view ts req.security_token ≡ some token
    pub unused : token.used ≡ false
    pub live : world.now ≤ token.expires_at
    pub named : (req.node_id ≢ "") × (req.organization_name ≢ "") × (req.jwks_uri ≢ "")
    pub jwks : String
    pub fetched : fetch_partner_keys jose driver world req.jwks_uri ≡ ok jwks
    pub partner : Partner
    pub stored :
        find_row Partners.key_of req.node_id
          (handle_webhook_registration jose driver world lookup write ts partners req).1.rows
        ≡ some partner
    pub columns :
        set_columns
          (record (requested jose driver world req jwks) { updated_at = world.now })
          partner
        ≡ partner
