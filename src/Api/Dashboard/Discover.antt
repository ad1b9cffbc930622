-- ===== src/Api/Dashboard/Discover.antt =====
-- internal/api/dashboard_handlers.go: the list of partners, and the discovery of a new one.
use fidex_go_node.Common.{
  ℕ, String, Bool, none, some, List, [], ◌∷◌, decimal, is_empty, if◌then◌else◌,
}
use fidex_go_node.Errors.{Error, ok, err}
use fidex_go_node.Json.{Json, number, text, array, object, end, field, Body, text_member, decode}
use fidex_go_node.Domain.{Partner}
use fidex_go_node.Crypto.{Jose}
use fidex_go_node.Store.{Fault, Driver}
use fidex_go_node.Store.Partners
use fidex_go_node.Store.Partners.{Partners}
use fidex_go_node.Discovery.Config.{As5Configuration, fetch_as5_config}
use fidex_go_node.Discovery.Service.{World, fetch_partner_keys}
use fidex_go_node.Api.{Reply, respond_with_error}
use fidex_go_node.Api.Settings.{no_error, reply, items}

-- partnersHandler; `format` prints an instant as encoding/json does.
unfoldable pub encode_listed : (ℕ → String) → Partner → Json
encode_listed format p = object (
    field "created_at" (text (format p.created_at)) (
      field "id" (number (decimal p.id)) (
        field "jwks_url" (text p.jwks_url) (
          field "name" (text p.name)
            (field "partner_id" (text p.partner_id) (field "status" (text "connected") end))))))

unfoldable pub partners : (ℕ → String) → Fault → Partners → Reply
partners format fault t = elim (Partners.list fault t) [
  | err e ↦ respond_with_error 500 "Failed to query partners" e
  | ok rows ↦ reply 200 (field "partners" (array (items (encode_listed format) rows)) end)
]

-- json.Decode into a PartnerDiscoveryRequest.
unfoldable pub decode_discovery : Body → String × Bool
decode_discovery body = decode (text_member "discovery_url" (λ t s. t) ∷ []) body ""

-- The row of a discovered partner; the algorithms that it advertises are not taken over.
abbrev pub discovered : As5Configuration → String → ℕ → Partner
discovered config jwks now = record {
  id = 0;
  partner_id = config.node_id;
  name = config.organization_name;
  jwks_url = config.endpoints.jwks;
  message_endpoint = config.endpoints.receive_message;
  mdn_receipt_endpoint = config.endpoints.receive_receipt;
  public_key_jwks = jwks;
  supported_encryption_algorithms = [];
  last_key_refresh = some now;
  created_at = 0;
  updated_at = 0;
}

abbrev connected : As5Configuration → Reply
connected config = reply 200 (
    field "partner_id" (text config.node_id) (
      field "name" (text config.organization_name) (
        field "status" (text "connected")
          (field "message" (text "Partner successfully discovered and added") end))))

-- An event for the clients of the hub: its type and its data.
abbrev pub partner_added : As5Configuration → String × Json
partner_added config = (
  "partner_added",
  object (
      field "name" (text config.organization_name)
        (field "partner_id" (text config.node_id) (field "status" (text "connected") end))),
)

-- What a handler leaves behind: the partners, its reply, and the events that it broadcasts.
abbrev pub Discovery : Type 0
Discovery = Partners × Reply × List (String × Json)

module _ (jose : Jose) (driver : Driver) (world : World) where
  unfoldable pub save_discovered : Bool → Fault → Partners → As5Configuration → String → Discovery
  save_discovered hub fault t config jwks =
      let (t', problem) = Partners.upsert world.now fault t (discovered config jwks world.now) in
      elim problem [
        | some e ↦ (t', respond_with_error 500 "Failed to save partner" e, [])
        | none ↦ (t', connected config, if hub then partner_added config ∷ [] else [])
      ]

  unfoldable pub keys_of : Bool → Fault → Partners → As5Configuration → Discovery
  unfolding save_discovered
  keys_of hub fault t config = elim (fetch_partner_keys jose driver world config.endpoints.jwks) [
    | err e ↦ (t, respond_with_error 400 "Failed to fetch partner keys" e, [])
    | ok jwks ↦ save_discovered hub fault t config jwks
  ]

  -- discoverPartnerHandler; `hub` says whether there is a websocket hub.
  unfoldable pub discover_partner : Bool → Fault → Error → Body → Partners → Discovery
  unfolding keys_of
  discover_partner hub fault decode_error body t =
      let (url, fits) = decode_discovery body in
      if fits
      then if is_empty url
        then (t, respond_with_error 400 "discovery_url is required" no_error, [])
        else elim (fetch_as5_config world.get url) [
          | err e ↦ (t, respond_with_error 400 "Failed to fetch partner configuration" e, [])
          | ok config ↦ keys_of hub fault t config
        ]
      else (t, respond_with_error 400 "Invalid request body" decode_error, [])
