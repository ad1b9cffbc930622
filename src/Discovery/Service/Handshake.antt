-- ===== src/Discovery/Service/Handshake.antt =====
-- internal/discovery/service.go: InitiatePartnerHandshake, alone and against a peer that runs the
-- same program.
use fidex_go_node.Common.{String, true, false, none, some, ◌+◌, ◌≡◌, arith, refl, inl, inr, eq_refl}
use fidex_go_node.Errors.{Result, ok, IsErr, Result-cases}
use fidex_go_node.Json.{Json, json, decode, same_key, encode_texts, decode_texts}
use fidex_go_node.Crypto.{Jose}
use fidex_go_node.Store.{Fault, Driver}
use fidex_go_node.Store.Partners
use fidex_go_node.Store.Partners.{Partners}
use fidex_go_node.Store.Table.{delete_rows}
use fidex_go_node.Store.Table.Laws.{find_row-delete_rows, find_row-append}
use fidex_go_node.Discovery.Tokens.{
  Token, TokenStore, key_of, view, validate_and_consume, generate_token,
}
use fidex_go_node.Discovery.Config.{
  NodeConfig, As5Configuration, generate_as5_config, Reply, fetch_as5_config,
}
use fidex_go_node.Discovery.Service.{
  encode_request, decode_request, World, handle_webhook_registration, registered,
  webhook_registration_handler, fetch_partner_keys, send_registration_request, registration,
  initiate_partner_handshake,
}

module _ (jose : Jose) (driver : Driver) (world : World) (config : NodeConfig) (write : Fault)
    (ts : TokenStore) (partners : Partners) (url : String) where
  -- A handshake that fails at any of its four steps changes no partner.
  initiate_err :
      (made : Result String)
      → IsErr (initiate_partner_handshake jose driver world config made write ts partners url).2
      → (initiate_partner_handshake jose driver world config made write ts partners url).1
        ≡ partners
  unfolding initiate_partner_handshake Partners.create
  initiate_err made h = ground arith

decode-registration :
    (jose : Jose) (driver : Driver) (world : World) (config : NodeConfig) (token : String)
    → decode_request (json (encode_request (registration jose driver world config token)))
      ≡ (registration jose driver world config token, true)
unfolding decode_request encode_request decode same_key encode_texts decode_texts
    generate_as5_config
decode-registration jose driver world config token = refl

-- The node at `register`, which runs the same program with its own tokens and partners.
pub record Peer : Type 1 where
  pub jose : Jose
  pub driver : Driver
  pub world : World
  pub lookup : Fault
  pub write : Fault
  pub tokens : TokenStore
  pub partners : Partners

-- What the peer's handler makes of a POST of the request: its tokens, its partners and the answer.
abbrev pub received : Peer → Json → TokenStore × Partners × Reply
received peer request =
    webhook_registration_handler peer.jose peer.driver peer.world true peer.lookup peer.write
      peer.tokens peer.partners "POST" (json request)

abbrev pub answer_of : Peer → Json → Reply
answer_of peer request = (received peer request).2

module _ (jose : Jose) (driver : Driver) (world : World) (config : NodeConfig) (peer : Peer) where
  refused_by_peer :
      (register key : String)
      → world.post register (encode_request (registration jose driver world config key))
        ≡ answer_of peer (encode_request (registration jose driver world config key))
      → view peer.tokens key ≡ none
      → IsErr (
          send_registration_request jose driver world register
            (registration jose driver world config key))
  unfolding send_registration_request webhook_registration_handler registered
      handle_webhook_registration validate_and_consume
  refused_by_peer register key reply unknown =
      ground (arith, decode-registration jose driver world config key)

  peer_unchanged :
      (key : String)
      → view peer.tokens key ≡ none
      → (received peer (encode_request (registration jose driver world config key))).1
        ≡ peer.partners
  unfolding webhook_registration_handler registered handle_webhook_registration validate_and_consume
  peer_unchanged key unknown = ground (arith, decode-registration jose driver world config key)

  token_kept :
      (key : String) (write : Fault) (ts : TokenStore) (partners : Partners) (url jwks : String)
      (remote : As5Configuration)
      → fetch_as5_config world.get url ≡ ok remote
      → fetch_partner_keys jose driver world remote.endpoints.jwks ≡ ok jwks
      → view
          (initiate_partner_handshake jose driver world config (ok key) write ts partners url).0
          key
        ≡ some (record { token = key; expires_at = world.now + 1800000000000; used = false })
  unfolding initiate_partner_handshake generate_token
  token_kept key write ts partners url jwks remote fetched got =
      let fresh : Token = record {
        token = key;
        expires_at = world.now + 1800000000000;
        used = false;
      } in
      ground (
        arith,
        find_row-delete_rows key_of key key ts,
        find_row-append key_of key (delete_rows key_of key ts) fresh,
        eq_refl key,
        Result-cases (
            send_registration_request jose driver world remote.endpoints.register
              (registration jose driver world config key)),
      )

  foreign_token_refused :
      (key : String) (write : Fault) (ts : TokenStore) (partners : Partners) (url : String)
      → ((register : String) (request : Json)
          → world.post register request ≡ answer_of peer request)
      → view peer.tokens key ≡ none
      → IsErr (initiate_partner_handshake jose driver world config (ok key) write ts partners url).2
        × ((initiate_partner_handshake jose driver world config (ok key) write ts partners url).1
            ≡ partners)
  unfolding initiate_partner_handshake generate_token
  foreign_token_refused key write ts partners url peers unknown =
      elim (Result-cases (fetch_as5_config world.get url)) [
        | inr (e, failed) ↦ ground arith
        | inl (remote, fetched) ↦
            ground (arith, refused_by_peer remote.endpoints.register key (peers _ _) unknown)
      ]

  -- A node that runs this program refuses the registration of every other one whose fresh token is
  -- not in its own store: the initiator puts the token that it sends in the initiator's store, and
  -- the handler looks it up in the peer's. Such a handshake fails, and registers no partner in
  -- either node; where the peer's configuration and keys were fetched, the initiator's own store has
  -- the token afterwards, unused and with an expiry 30 minutes after the present.
  pub handshake_foreign_token :
      (key : String) (write : Fault) (ts : TokenStore) (partners : Partners) (url : String)
      → ((register : String) (request : Json)
          → world.post register request ≡ answer_of peer request)
      → view peer.tokens key ≡ none
      → IsErr (initiate_partner_handshake jose driver world config (ok key) write ts partners url).2
        × ((initiate_partner_handshake jose driver world config (ok key) write ts partners url).1
            ≡ partners)
        × ((received peer (encode_request (registration jose driver world config key))).1
            ≡ peer.partners)
        × ((remote : As5Configuration) (jwks : String)
            → fetch_as5_config world.get url ≡ ok remote
            → fetch_partner_keys jose driver world remote.endpoints.jwks ≡ ok jwks
            → view
                (initiate_partner_handshake jose driver world config
                  (ok key)
                  write
                  ts
                  partners
                  url).0
                key
              ≡ some (record { token = key; expires_at = world.now + 1800000000000; used = false }))
  handshake_foreign_token key write ts partners url peers unknown =
      let (fails, same) = foreign_token_refused key write ts partners url peers unknown in
      (
        fails,
        same,
        peer_unchanged key unknown,
        λ remote jwks fetched got. token_kept key write ts partners url jwks remote fetched got,
      )
