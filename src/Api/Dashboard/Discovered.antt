-- ===== src/Api/Dashboard/Discovered.antt =====
-- dashboard_handlers.go, discoverPartnerHandler: what an answer of 200 has established.
use fidex_go_node.Common.{ℕ, String, Bool, some, List, [], ◌∷◌, ◌≡◌, ◌≢◌, if◌then◌else◌}
use fidex_go_node.Errors.{Error, ok}
use fidex_go_node.Json.{Body, Json}
use fidex_go_node.Crypto.{Jose}
use fidex_go_node.Store.{Fault, Driver}
use fidex_go_node.Domain.{Partner}
use fidex_go_node.Store.Table.{find_row}
use fidex_go_node.Store.Partners
use fidex_go_node.Store.Partners.{Partners}
use fidex_go_node.Discovery.Config.{As5Configuration, fetch_as5_config}
use fidex_go_node.Discovery.Service.{World, fetch_partner_keys}
use fidex_go_node.Api.Dashboard.Discover.{discover_partner, decode_discovery, partner_added}

module _ (jose : Jose) (driver : Driver) (world : World) (hub : Bool) (fault : Fault)
    (decode_error : Error) (body : Body) (t : Partners) where
  -- The partners, the status and the events afterwards.
  abbrev pub after : Partners
  after = (discover_partner jose driver world hub fault decode_error body t).0

  abbrev pub status : ℕ
  status = (discover_partner jose driver world hub fault decode_error body t).1.status

  abbrev pub events : List (String × Json)
  events = (discover_partner jose driver world hub fault decode_error body t).2

  pub record Known : Type 0 where
    pub config : As5Configuration
    pub jwks : String
    pub fetched : fetch_as5_config world.get (decode_discovery body).0 ≡ ok config
    pub keys : fetch_partner_keys jose driver world config.endpoints.jwks ≡ ok jwks
    pub row : Partner
    pub stored : find_row Partners.key_of config.node_id after.rows ≡ some row
    pub name : row.name ≡ config.organization_name
    pub message_endpoint : row.message_endpoint ≡ config.endpoints.receive_message
    pub mdn_receipt_endpoint : row.mdn_receipt_endpoint ≡ config.endpoints.receive_receipt
    pub jwks_url : row.jwks_url ≡ config.endpoints.jwks
    pub public_key_jwks : row.public_key_jwks ≡ jwks
    pub others :
        (other : String)
        → other ≢ config.node_id
        → find_row Partners.key_of other after.rows ≡ find_row Partners.key_of other t.rows
    pub announced : events ≡ (if hub then partner_added config ∷ [] else [])
