-- ===== src/Config.antt =====
-- internal/config/config.go: the configuration of a node, its defaults, and its file, which is read
-- and written as a JSON document.
pub mod Overrides
pub mod Load
pub mod Keys
pub mod Saved
use Prim.Native.Char.{code}
use Prim.Native.String
use Prim.Native.Nat.{◌%◌}
use fidex_go_node.Common.{
  suc, ◌+◌, String, Bool, true, false, none, some, List, [], ◌∷◌, ◌==◌, ◌||◌, ◌&&◌, if◌then◌else◌,
  sprint, decimal, ℤ, pos, negsuc,
}
use fidex_go_node.Errors.{Error, plain, Result, ok, err, context}
use fidex_go_node.Json.{
  Json, bool, number, text, array, object, Items, nil, cons, end, field, Body, Member, text_member,
  int_member, decode, encode_texts,
}
use fidex_go_node.Store.{Fault}

pub record Config : Type 0 where
  pub node_id : String
  pub organization_name : String
  pub public_domain : String
  pub internal_api_port : ℤ
  pub public_api_port : ℤ
  pub internal_api_key : String
  pub allowed_ip_addresses : List String
  pub enable_ip_allowlist : Bool
  pub private_key_path : String
  pub public_key_path : String
  pub database_path : String

abbrev pub default_config : Config
default_config = record {
  node_id = "fidex-edge-node";
  organization_name = "FideX Edge Node";
  public_domain = "localhost";
  internal_api_port = pos 8080;
  public_api_port = pos 8443;
  internal_api_key = "";
  allowed_ip_addresses = "127.0.0.1" ∷ "::1" ∷ [];
  enable_ip_allowlist = true;
  private_key_path = "./keys/private_key.pem";
  public_key_path = "./keys/public_key.pem";
  database_path = "./fidex_local.db";
}

abbrev bool_member : {S : Type 0} → String → (Bool → S → S) → Member S
bool_member key set = record {
  key = key;
  put = λ v s. elim v [ Json.null ↦ (s, true) | bool b ↦ (set b s, true) | _ ↦ (s, false) ];
}

-- Unmarshal of an array into a []string that holds texts already: a `null` leaves the text that
-- stood at its place.
unfoldable pub decode_texts_onto : List String → Items → List String × Bool
decode_texts_onto old nil = ([], true)
decode_texts_onto [] (cons v vs) =
    let (rest, fit) = decode_texts_onto [] vs in
    elim v [ Json.null ↦ ("" ∷ rest, fit) | text t ↦ (t ∷ rest, fit) | _ ↦ ("" ∷ rest, false) ]
decode_texts_onto (o ∷ old) (cons v vs) =
    let (rest, fit) = decode_texts_onto old vs in
    elim v [ Json.null ↦ (o ∷ rest, fit) | text t ↦ (t ∷ rest, fit) | _ ↦ (o ∷ rest, false) ]

abbrev allowed_member : Member Config
allowed_member = record {
  key = "allowed_ip_addresses";
  put = λ v c. elim v [
    | Json.null ↦ (record c { allowed_ip_addresses = [] }, true)
    | array items ↦
        (let (ts, fits) = decode_texts_onto c.allowed_ip_addresses items in
          (record c { allowed_ip_addresses = ts }, fits))
    | _ ↦ (c, false)
  ];
}

abbrev members : List (Member Config)
members =
    text_member "node_id" (λ t c. record c { node_id = t })
    ∷ text_member "organization_name" (λ t c. record c { organization_name = t })
    ∷ text_member "public_domain" (λ t c. record c { public_domain = t })
    ∷ int_member "internal_api_port" (λ n c. record c { internal_api_port = n })
    ∷ int_member "public_api_port" (λ n c. record c { public_api_port = n })
    ∷ text_member "internal_api_key" (λ t c. record c { internal_api_key = t })
    ∷ allowed_member
    ∷ bool_member "enable_ip_allowlist" (λ b c. record c { enable_ip_allowlist = b })
    ∷ text_member "private_key_path" (λ t c. record c { private_key_path = t })
    ∷ text_member "public_key_path" (λ t c. record c { public_key_path = t })
    ∷ text_member "database_path" (λ t c. record c { database_path = t })
    ∷ []

unfoldable pub decode_config : Body → Config → Config × Bool
decode_config body c = decode members body c

-- loadFromFile; `parse_error` is the text of json.Unmarshal's error.
unfoldable pub load_from_file : Error → (String → Result Body) → Config → String → Result Config
load_from_file parse_error read c path = elim (read path) [
  | err e ↦ err (context "failed to read config file" e)
  | ok body ↦
      let (c', fits) = decode_config body c in
      if fits then ok c' else err (context "failed to parse config file" parse_error)
]

abbrev pub int_text : ℤ → String
int_text (pos n) = decimal n
int_text (negsuc n) = sprint ("-" ∷ decimal (suc n) ∷ [])

-- json.MarshalIndent of a configuration, as a document.
unfoldable pub encode_saved : Config → Json
encode_saved c = object (
    field "node_id" (text c.node_id) (
      field "organization_name" (text c.organization_name) (
        field "public_domain" (text c.public_domain) (
          field "internal_api_port" (number (int_text c.internal_api_port)) (
            field "public_api_port" (number (int_text c.public_api_port)) (
              field "internal_api_key" (text c.internal_api_key) (
                field "allowed_ip_addresses" (array (encode_texts c.allowed_ip_addresses)) (
                  field "enable_ip_allowlist" (bool c.enable_ip_allowlist) (
                    field "private_key_path" (text c.private_key_path) (
                      field "public_key_path" (text c.public_key_path)
                        (field "database_path" (text c.database_path) end)))))))))))

-- Save: the document that stands in the file afterwards, or the error.
unfoldable pub save : Fault → Config → Result Json
save (some e) c = err (context "failed to write config file" (plain e))
save none c = ok (encode_saved c)
