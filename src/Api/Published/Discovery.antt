-- ===== src/Api/Published/Discovery.antt =====
-- internal/api: discoverPartnerHandler of one node against as5ConfigHandler and jwksHandler of
-- another.
use fidex_go_node.Common.{
  ℕ, suc, String, Bool, true, Option, none, some, [], ◌∷◌, ◌≡◌, ◌≢◌, arith, eq_iff, refl, sprint,
}
use fidex_go_node.Errors.{Error, ok, map_error-eq-ok}
use fidex_go_node.Json.{Json, Body, json}
use fidex_go_node.Domain.{Partner}
use fidex_go_node.Config.{Config}
use fidex_go_node.Crypto.{Jose, Engine}
use fidex_go_node.Crypto.Keys.{
  published, export_jwks, parse_public_key_by_use, parse_public_key, select_key,
}
use fidex_go_node.Store.{Driver}
use fidex_go_node.Store.Table.{find_row}
use fidex_go_node.Store.Partners
use fidex_go_node.Store.Partners.{Partners, upsert}
use fidex_go_node.Store.Partners.Laws.{upserted, upsert_effect}
use fidex_go_node.Discovery.Config.{As5Configuration, generate_as5_config, fetch_as5_config}
use fidex_go_node.Discovery.Config.Published.{fetch-generate_as5_config}
use fidex_go_node.Discovery.Service.{World, fetch_partner_keys}
use fidex_go_node.Api.Dashboard.Discover.{
  discover_partner, decode_discovery, discovered, save_discovered, keys_of,
}
use fidex_go_node.Api.Dashboard.Discovered.{after, status}
use fidex_go_node.Api.Published.{
  Request, base_of, document_of_node, as5_config_handler, key_base, jwks_handler,
}

-- The columns of a partner that an upsert stores, whatever row there was.
IsOf : Partner → Partner → Type 0
IsOf p q =
    (q.message_endpoint ≡ p.message_endpoint)
    × (q.mdn_receipt_endpoint ≡ p.mdn_receipt_endpoint)
    × (q.public_key_jwks ≡ p.public_key_jwks)

upserted-IsOf : (now id : ℕ) (p : Partner) (old : Option Partner) → IsOf p (upserted now id p old)
unfolding IsOf
upserted-IsOf now id p none = (refl, refl, refl)
upserted-IsOf now id p (some row) = (refl, refl, refl)

module _ (jose : Jose) (driver : Driver) (world : World) (document : String → Body)
    (engine : Engine jose) (config : Config) (r : Request) where
  -- go-jose reads back the keys that it printed, after encoding/json has read and printed the
  -- document once more.
  abbrev pub ReadsBack : Type 0
  ReadsBack =
      (t : String)
      → jose.print_key_set (published jose engine (key_base config)) ≡ ok t
      → (v : Json) × (back : String) × (document t ≡ json v)
        × (world.print v ≡ some back)
        × (jose.parse_key_set back ≡ ok (published jose engine (key_base config)))

  -- The key set that a peer stores.
  abbrev Fetched : String → Type 0
  Fetched keys =
      (fetch_partner_keys jose driver world (sprint (base_of r ∷ "/.well-known/jwks.json" ∷ []))
        ≡ ok keys)
      × (parse_public_key_by_use jose keys "enc" ≡ ok (jose.public engine.private_key))
      × (parse_public_key_by_use jose keys "sig" ≡ ok (jose.public engine.private_key))

  fetch-jwks_handler :
      (jwks : String)
      → ReadsBack
      → export_jwks jose engine (key_base config) ≡ ok jwks
      → world.get (sprint (base_of r ∷ "/.well-known/jwks.json" ∷ []))
        ≡ jwks_handler jose document (some engine) config
      → (keys : String) × Fetched keys
  unfolding jwks_handler export_jwks fetch_partner_keys parse_public_key_by_use parse_public_key
      select_key
  fetch-jwks_handler jwks reads exported reply =
      let (v, read_back, spelt, printed, back) = reads jwks (map_error-eq-ok _ _ exported) in
      (
        read_back,
        (
          ground (arith, map_error-eq-ok _ _ exported, spelt, printed, back),
          rw back refl,
          rw back refl,
        ),
      )

  fetch-as5_config_handler :
      (url : String)
      → config.node_id ≢ ""
      → world.get url ≡ as5_config_handler (some config) r
      → fetch_as5_config world.get url ≡ ok (generate_as5_config (document_of_node config r))
  unfolding as5_config_handler
  fetch-as5_config_handler url named own =
      (fetch-generate_as5_config (document_of_node config r) world.get url named own).0

  module _ (t : Partners) (hub : Bool) (decode_error : Error) (body : Body) where
    module _ (url keys : String) (found : As5Configuration)
        (asked : decode_discovery body ≡ (url, true)) (given : url ≢ "")
        (fetched : fetch_as5_config world.get url ≡ ok found)
        (got : fetch_partner_keys jose driver world found.endpoints.jwks ≡ ok keys)
        (named : found.node_id ≢ "") where
      discovery_saved :
          (status jose driver world hub none decode_error body t ≡ 200)
          × (after jose driver world hub none decode_error body t
              ≡ (upsert world.now none t (discovered found keys world.now)).0)
      unfolding discover_partner keys_of save_discovered upsert
      discovery_saved = ground (arith, eq_iff url "", eq_iff found.node_id "")

      stored_row :
          (p : Partner) × (find_row Partners.key_of found.node_id
              (after jose driver world hub none decode_error body t).rows
            ≡ some p)
          × IsOf (discovered found keys world.now) p
      stored_row =
          let p = discovered found keys world.now in
          let old = find_row Partners.key_of found.node_id t.rows in
          (
            upserted world.now (suc t.sequence) p old,
            rw discovery_saved.1 (
                ground (
                  arith,
                  upsert_effect world.now t p found.node_id named,
                  eq_iff found.node_id found.node_id,
                )),
            upserted-IsOf world.now (suc t.sequence) p old,
          )

    -- A node that has an id answers the discovery of another node with the two documents that it
    -- publishes, go-jose reads back the key set that it printed, and the database has no fault.
    -- The discovery succeeds, and the row that it leaves under the node's id has the node's own
    -- endpoints, and a key set from which the node's own public key is taken, to encrypt for it and
    -- to verify its signatures.
    pub discover_partner-as5_config_handler :
        (url jwks : String)
        → ReadsBack
        → config.node_id ≢ ""
        → decode_discovery body ≡ (url, true)
        → url ≢ ""
        → export_jwks jose engine (key_base config) ≡ ok jwks
        → world.get url ≡ as5_config_handler (some config) r
        → world.get (sprint (base_of r ∷ "/.well-known/jwks.json" ∷ []))
          ≡ jwks_handler jose document (some engine) config
        → (status jose driver world hub none decode_error body t ≡ 200)
          × ((p : Partner) × (find_row Partners.key_of config.node_id
                  (after jose driver world hub none decode_error body t).rows
                ≡ some p)
              × (p.message_endpoint ≡ sprint (base_of r ∷ "/api/v1/inbound" ∷ []))
              × (p.mdn_receipt_endpoint ≡ sprint (base_of r ∷ "/api/v1/receipt" ∷ []))
              × (parse_public_key_by_use jose p.public_key_jwks "enc"
                  ≡ ok (jose.public engine.private_key))
              × (parse_public_key_by_use jose p.public_key_jwks "sig"
                  ≡ ok (jose.public engine.private_key)))
    unfolding generate_as5_config IsOf
    discover_partner-as5_config_handler url jwks reads named asked given exported own own_keys =
        let (keys, (got, enc, sig)) = fetch-jwks_handler jwks reads exported own_keys in
        let found = generate_as5_config (document_of_node config r) in
        let fetched = fetch-as5_config_handler url named own in
        let (saved, after_saved) = discovery_saved url keys found asked given fetched got named in
        let (p, row, (receive, receipt, same_keys)) =
          stored_row url keys found asked given fetched got named in
        (saved, (p, row, receive, receipt, rw same_keys enc, rw same_keys sig))
