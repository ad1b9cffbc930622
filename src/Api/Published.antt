-- ===== src/Api/Published.antt =====
-- The documents that a node publishes: as5ConfigHandler of internal/api/discovery_handlers.go and
-- jwksHandler of internal/api/external_handlers.go. `document` is the document that a text spells.
pub mod Discovery
use fidex_go_node.Common.{String, Bool, Option, none, some, [], ◌∷◌, sprint}
use fidex_go_node.Errors.{ok, err}
use fidex_go_node.Json.{Body, raw, json}
use fidex_go_node.Config.{Config}
use fidex_go_node.Crypto.{Jose, Engine}
use fidex_go_node.Crypto.Keys.{export_jwks}
use fidex_go_node.Discovery.Config.{
  NodeConfig, Reply, answered, generate_as5_config, encode_as5_config,
}
use fidex_go_node.Api.Dashboard.Qr.{get_base_url}

-- What getBaseURL reads of a request.
pub record Request : Type 0 where
  pub tls : Bool
  pub forwarded_proto : String
  pub forwarded_host : String
  pub host : String

abbrev pub base_of : Request → String
base_of r = get_base_url r.tls r.forwarded_proto r.forwarded_host r.host

abbrev pub document_of_node : Config → Request → NodeConfig
document_of_node config r = record {
  node_id = config.node_id;
  organization_name = config.organization_name;
  base_url = base_of r;
  public_domain = config.public_domain;
  supported_document_types = [];
}

unfoldable pub as5_config_handler : Option Config → Request → Reply
as5_config_handler none r = answered 500 (raw "Internal Server Error\n")
as5_config_handler (some config) r =
    answered 200 (json (encode_as5_config (generate_as5_config (document_of_node config r))))

abbrev pub key_base : Config → String
key_base config = sprint (config.node_id ∷ ":enc" ∷ [])

module _ (jose : Jose) (document : String → Body) where
  unfoldable pub jwks_handler : Option (Engine jose) → Config → Reply
  jwks_handler none config = answered 503 (raw "Service unavailable\n")
  jwks_handler (some engine) config = elim (export_jwks jose engine (key_base config)) [
    | err e ↦ answered 500 (raw "Internal Server Error\n")
    | ok jwks ↦ answered 200 (document jwks)
  ]
