-- ===== src/Discovery/Config.antt =====
-- internal/discovery/as5_config.go: the discovery document that a node publishes, and what a peer
-- makes of it.
pub mod Published
use fidex_go_node.Common.{
  ℕ, String, Bool, true, false, List, [], ◌∷◌, ◌≡◌, ◌≢◌, if◌then◌else◌, is_empty, sprint,
  same_number, not, decimal, ℤ, pos, negsuc, suc,
}
use fidex_go_node.Errors.{Error, plain, Result, ok, err, ◌>>=◌, ◌>>◌, refuse_if, context}
use fidex_go_node.Json.{
  Json, text, array, number, object, end, field, Body, json, Member, text_member, texts_member,
  texts_unless_empty, int_member, struct_member, decode, encode_texts, text_unless_empty,
}

pub record Endpoints : Type 0 where
  pub receive_message : String
  pub receive_receipt : String
  pub register : String
  pub jwks : String

pub record SecurityConfig : Type 0 where
  pub signature_algorithm : String
  pub encryption_algorithm : String
  pub supported_encryption_algorithms : List String
  pub content_encryption : String
  pub minimum_key_size : ℤ

pub record As5Configuration : Type 0 where
  pub fidex_version : String
  pub supported_versions : List String
  pub conformance_profile : String
  pub node_id : String
  pub organization_name : String
  pub public_domain : String
  pub supported_document_types : List String
  pub endpoints : Endpoints
  pub security : SecurityConfig

pub record NodeConfig : Type 0 where
  pub node_id : String
  pub organization_name : String
  pub base_url : String
  pub public_domain : String
  pub supported_document_types : List String

abbrev at : String → String → String
at base route = sprint (base ∷ route ∷ [])

unfoldable pub generate_as5_config : NodeConfig → As5Configuration
generate_as5_config config = record {
  fidex_version = "1.0";
  supported_versions = "1.0" ∷ [];
  conformance_profile = "core";
  node_id = config.node_id;
  organization_name = config.organization_name;
  public_domain = if is_empty config.public_domain then config.base_url else config.public_domain;
  supported_document_types = config.supported_document_types;
  endpoints = record {
    receive_message = at config.base_url "/api/v1/inbound";
    receive_receipt = at config.base_url "/api/v1/receipt";
    register = at config.base_url "/api/v1/register";
    jwks = at config.base_url "/.well-known/jwks.json";
  };
  security = record {
    signature_algorithm = "RS256";
    encryption_algorithm = "RSA-OAEP";
    supported_encryption_algorithms = "RSA-OAEP" ∷ "RSA-OAEP-256" ∷ [];
    content_encryption = "A256GCM";
    minimum_key_size = pos 2048;
  };
}

abbrev required : String → Error
required what = plain (sprint (what ∷ " is required" ∷ []))

unfoldable is_no_text : List String → Bool
is_no_text [] = true
is_no_text (t ∷ ts) = false

unfoldable pub validate_as5_config : As5Configuration → Result (Unit {0})
unfolding is_no_text
validate_as5_config config = do
  refuse_if (is_empty config.node_id) (required "node_id")
  refuse_if (is_empty config.fidex_version) (required "fidex_version")
  refuse_if (is_no_text config.supported_versions)
      (plain "supported_versions is required and must be non-empty")
  refuse_if (is_empty config.endpoints.jwks) (required "endpoints.jwks")
  refuse_if (is_empty config.endpoints.receive_message) (required "endpoints.receive_message")
  refuse_if (is_empty config.endpoints.receive_receipt) (required "endpoints.receive_receipt")
  refuse_if (is_empty config.endpoints.register) (required "endpoints.register")
  ok tt

unfoldable pub resolve_supported_encryption_algorithms : As5Configuration → List String
unfolding is_no_text
resolve_supported_encryption_algorithms config =
    if not (is_no_text config.security.supported_encryption_algorithms)
    then config.security.supported_encryption_algorithms
    else if not (is_empty config.security.encryption_algorithm)
    then config.security.encryption_algorithm ∷ []
    else []

encode_endpoints : Endpoints → Json
encode_endpoints e = object (
    field "receive_message" (text e.receive_message) (
      field "receive_receipt" (text e.receive_receipt)
        (field "register" (text e.register) (field "jwks" (text e.jwks) end))))

abbrev endpoints_members : List (Member Endpoints)
endpoints_members =
    text_member "receive_message" (λ t e. record e { receive_message = t })
    ∷ text_member "receive_receipt" (λ t e. record e { receive_receipt = t })
    ∷ text_member "register" (λ t e. record e { register = t })
    ∷ text_member "jwks" (λ t e. record e { jwks = t })
    ∷ []

abbrev int_text : ℤ → String
int_text (pos n) = decimal n
int_text (negsuc n) = sprint ("-" ∷ decimal (suc n) ∷ [])

encode_security : SecurityConfig → Json
encode_security s = object (
    field "signature_algorithm" (text s.signature_algorithm) (
      field "encryption_algorithm" (text s.encryption_algorithm) (
        texts_unless_empty "supported_encryption_algorithms" s.supported_encryption_algorithms (
          field "content_encryption" (text s.content_encryption)
            (field "minimum_key_size" (number (int_text s.minimum_key_size)) end)))))

-- json.Marshal of a document.
unfoldable pub encode_as5_config : As5Configuration → Json
unfolding encode_endpoints encode_security
encode_as5_config c = object (
    field "fidex_version" (text c.fidex_version) (
      field "supported_versions" (array (encode_texts c.supported_versions)) (
        text_unless_empty "conformance_profile" c.conformance_profile (
          field "node_id" (text c.node_id) (
            field "organization_name" (text c.organization_name) (
              field "public_domain" (text c.public_domain) (
                texts_unless_empty "supported_document_types" c.supported_document_types (
                  field "endpoints" (encode_endpoints c.endpoints)
                    (field "security" (encode_security c.security) end)))))))))

abbrev security_members : List (Member SecurityConfig)
security_members =
    text_member "signature_algorithm" (λ t s. record s { signature_algorithm = t })
    ∷ text_member "encryption_algorithm" (λ t s. record s { encryption_algorithm = t })
    ∷ texts_member "supported_encryption_algorithms"
        (λ ts s. record s { supported_encryption_algorithms = ts })
    ∷ text_member "content_encryption" (λ t s. record s { content_encryption = t })
    ∷ int_member "minimum_key_size" (λ n s. record s { minimum_key_size = n })
    ∷ []

abbrev config_members : List (Member As5Configuration)
config_members =
    text_member "fidex_version" (λ t c. record c { fidex_version = t })
    ∷ texts_member "supported_versions" (λ ts c. record c { supported_versions = ts })
    ∷ text_member "conformance_profile" (λ t c. record c { conformance_profile = t })
    ∷ text_member "node_id" (λ t c. record c { node_id = t })
    ∷ text_member "organization_name" (λ t c. record c { organization_name = t })
    ∷ text_member "public_domain" (λ t c. record c { public_domain = t })
    ∷ texts_member "supported_document_types" (λ ts c. record c { supported_document_types = ts })
    ∷ struct_member "endpoints" endpoints_members (λ c. c.endpoints)
        (λ e c. record c { endpoints = e })
    ∷ struct_member "security" security_members (λ c. c.security) (λ s c. record c { security = s })
    ∷ []

abbrev zero_config : As5Configuration
zero_config = record {
  fidex_version = "";
  supported_versions = [];
  conformance_profile = "";
  node_id = "";
  organization_name = "";
  public_domain = "";
  supported_document_types = [];
  endpoints = record { receive_message = ""; receive_receipt = ""; register = ""; jwks = "" };
  security = record {
    signature_algorithm = "";
    encryption_algorithm = "";
    supported_encryption_algorithms = [];
    content_encryption = "";
    minimum_key_size = pos 0;
  };
}

unfoldable pub decode_as5_config : Body → As5Configuration × Bool
decode_as5_config body = decode config_members body zero_config

-- The answer to a request to another node.
pub data Reply : Type 0 where
  unreachable : String → Reply
  answered : ℕ → Body → Reply

unfoldable pub fetch_as5_config : (String → Reply) → String → Result As5Configuration
fetch_as5_config get discovery_url = elim (get discovery_url) [
  | unreachable e ↦ err (context "failed to fetch AS5 config" (plain e))
  | answered status body ↦
      if same_number status 200
      then (let (config, fits) = decode_as5_config body in
          if fits
          then elim (validate_as5_config config) [
            | ok u ↦ ok config
            | err e ↦ err (context "invalid AS5 config" e)
          ]
          else err (plain "failed to parse AS5 config"))
      else err (plain (sprint ("failed to fetch AS5 config: HTTP " ∷ decimal status ∷ [])))
]
