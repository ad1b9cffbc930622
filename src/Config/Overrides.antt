-- ===== src/Config/Overrides.antt =====
-- internal/config/config.go: what the environment and the flags change of a configuration. The flags are
-- what flag.Parse leaves, and the environment is a function.
use Prim.Native.Char.{code}
use fidex_go_node.Common.{
  String, Bool, false, Option, none, some, List, [], ◌∷◌, ◌==◌, ◌||◌, is_empty, if◌then◌else◌,
  same_number, ℤ, pos, negsuc,
}
use fidex_go_node.Strconv.{atoi}
use fidex_go_node.Config.{Config, default_config}

-- A variable of the environment that is not set is the empty text.
abbrev pub Environment : Type 0
Environment = String → String

abbrev override : String → String → String
override value current = if is_empty value then current else value

abbrev port_of : Option ℤ → ℤ → ℤ
port_of none current = current
port_of (some n) current = n

abbrev override_port : String → ℤ → ℤ
override_port value current = if is_empty value then current else port_of (atoi value) current

-- `strings.Split(s, ",")`
unfoldable pub split_commas : String → List String
split_commas String.[] = "" ∷ []
split_commas (String.◌∷◌ c s) =
    let rest = split_commas s in
    elim rest [
      | [] ↦ []
      | t ∷ ts ↦ if same_number (code c) b',' then "" ∷ t ∷ ts else String.◌∷◌ c t ∷ ts
    ]

unfoldable pub load_from_env : Environment → Config → Config
load_from_env env c = record {
  node_id = override (env "FIDEX_NODE_ID") c.node_id;
  organization_name = override (env "FIDEX_ORG_NAME") c.organization_name;
  public_domain = override (env "FIDEX_PUBLIC_DOMAIN") c.public_domain;
  internal_api_port = override_port (env "FIDEX_INTERNAL_PORT") c.internal_api_port;
  public_api_port = override_port (env "FIDEX_PUBLIC_PORT") c.public_api_port;
  internal_api_key = override (env "FIDEX_API_KEY") c.internal_api_key;
  allowed_ip_addresses =
      if is_empty (env "FIDEX_ALLOWED_IPS")
      then c.allowed_ip_addresses
      else split_commas (env "FIDEX_ALLOWED_IPS");
  enable_ip_allowlist =
      if is_empty (env "FIDEX_ENABLE_IP_ALLOWLIST")
      then c.enable_ip_allowlist
      else env "FIDEX_ENABLE_IP_ALLOWLIST" == "true" || env "FIDEX_ENABLE_IP_ALLOWLIST" == "1";
  private_key_path = override (env "FIDEX_PRIVATE_KEY_PATH") c.private_key_path;
  public_key_path = override (env "FIDEX_PUBLIC_KEY_PATH") c.public_key_path;
  database_path = override (env "FIDEX_DB_PATH") c.database_path;
}

-- The flags after flag.Parse: a flag that was not given has its default.
pub record Flags : Type 0 where
  pub config_file : String
  pub node_id : String
  pub organization_name : String
  pub public_domain : String
  pub internal_api_port : ℤ
  pub public_api_port : ℤ
  pub internal_api_key : String
  pub enable_ip_allowlist : Bool
  pub private_key_path : String
  pub public_key_path : String
  pub database_path : String

abbrev pub default_flags : Flags
default_flags = record {
  config_file = "";
  node_id = default_config.node_id;
  organization_name = default_config.organization_name;
  public_domain = default_config.public_domain;
  internal_api_port = default_config.internal_api_port;
  public_api_port = default_config.public_api_port;
  internal_api_key = default_config.internal_api_key;
  enable_ip_allowlist = default_config.enable_ip_allowlist;
  private_key_path = default_config.private_key_path;
  public_key_path = default_config.public_key_path;
  database_path = default_config.database_path;
}

-- A flag counts when the text of its value is not that of its default.
abbrev flag_text : String → String → String → String
flag_text given usual current = if given == usual then current else given

abbrev same_int : ℤ → ℤ → Bool
same_int (pos a) (pos b) = same_number a b
same_int (negsuc a) (negsuc b) = same_number a b
same_int _ _ = false

abbrev flag_int : ℤ → ℤ → ℤ → ℤ
flag_int given usual current = if same_int given usual then current else given

abbrev flag_true : Bool → Bool → Bool
flag_true given current = if given then current else given

unfoldable pub load_from_flags : Flags → Config → Config
load_from_flags f c = record c {
  node_id = flag_text f.node_id "fidex-edge-node" c.node_id;
  organization_name = flag_text f.organization_name "FideX Edge Node" c.organization_name;
  public_domain = flag_text f.public_domain "localhost" c.public_domain;
  internal_api_port = flag_int f.internal_api_port (pos 8080) c.internal_api_port;
  public_api_port = flag_int f.public_api_port (pos 8443) c.public_api_port;
  internal_api_key = flag_text f.internal_api_key "" c.internal_api_key;
  enable_ip_allowlist = flag_true f.enable_ip_allowlist c.enable_ip_allowlist;
  private_key_path = flag_text f.private_key_path "./keys/private_key.pem" c.private_key_path;
  public_key_path = flag_text f.public_key_path "./keys/public_key.pem" c.public_key_path;
  database_path = flag_text f.database_path "./fidex_local.db" c.database_path;
}
