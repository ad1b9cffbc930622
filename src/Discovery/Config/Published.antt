-- ===== src/Discovery/Config/Published.antt =====
-- internal/discovery/as5_config.go: a peer accepts the document that a node publishes.
use Prim.Native.String
use text.Mathlib.TextLemmas.{nil-append, cons-append}
use fidex_go_node.Common.{
  String, Bool, true, List, [], ◌∷◌, ◌≡◌, ◌≢◌, arith, refl, ap, eq_iff, decimal, sprint,
}
use fidex_go_node.Errors.{ok}
use fidex_go_node.Json.{json, decode, same_key, encode_texts, decode_texts, integer}
use fidex_go_node.Discovery.Config.{
  NodeConfig, generate_as5_config, encode_as5_config, decode_as5_config, validate_as5_config, Reply,
  answered, fetch_as5_config, resolve_supported_encryption_algorithms,
}

decode-encode_texts : (ts : List String) → decode_texts (encode_texts ts) ≡ (ts, true)
unfolding decode_texts encode_texts
decode-encode_texts [] = refl
decode-encode_texts (t ∷ ts) = rw (decode-encode_texts ts) refl

decode-generate :
    (types : List String) (config : NodeConfig)
    → let published = generate_as5_config (record config { supported_document_types = types }) in
      decode_as5_config (json (encode_as5_config published)) ≡ (published, true)
unfolding decode_as5_config encode_as5_config generate_as5_config decode same_key encode_texts
    decode_texts integer decimal
decode-generate [] config = refl
decode-generate (t ∷ ts) config =
    let read_back = decode-encode_texts ts in
    rw
      (
        ap (λ (p : List String × Bool). p.0) read_back,
        ap (λ (p : List String × Bool). p.1) read_back,
      )
      refl

append-ne-empty : (s t : String) → t ≢ "" → String.◌++◌ s t ≢ ""
append-ne-empty String.[] t h = rw nil-append h
append-ne-empty (String.◌∷◌ c s) t h = rw cons-append (λ e. cc)

validate-generate :
    (config : NodeConfig)
    → config.node_id ≢ ""
    → validate_as5_config (generate_as5_config config) ≡ ok tt
unfolding validate_as5_config generate_as5_config
validate-generate config named = ground (
  arith,
  eq_iff config.node_id "",
  eq_iff (sprint (config.base_url ∷ "/.well-known/jwks.json" ∷ [])) "",
  eq_iff (sprint (config.base_url ∷ "/api/v1/inbound" ∷ [])) "",
  eq_iff (sprint (config.base_url ∷ "/api/v1/receipt" ∷ [])) "",
  eq_iff (sprint (config.base_url ∷ "/api/v1/register" ∷ [])) "",
  append-ne-empty config.base_url "/.well-known/jwks.json" (λ e. cc),
  append-ne-empty config.base_url "/api/v1/inbound" (λ e. cc),
  append-ne-empty config.base_url "/api/v1/receipt" (λ e. cc),
  append-ne-empty config.base_url "/api/v1/register" (λ e. cc),
)

resolve-generate :
    (config : NodeConfig)
    → resolve_supported_encryption_algorithms (generate_as5_config config)
      ≡ "RSA-OAEP" ∷ "RSA-OAEP-256" ∷ []
unfolding resolve_supported_encryption_algorithms generate_as5_config
resolve-generate config = refl

-- A peer that is answered with the document which a node publishes, the node having an id, accepts
-- it: it reads back every member, and takes both RSA-OAEP and RSA-OAEP-256 from it.
pub fetch-generate_as5_config :
    (config : NodeConfig) (get : String → Reply) (url : String)
    → config.node_id ≢ ""
    → get url ≡ answered 200 (json (encode_as5_config (generate_as5_config config)))
    → (fetch_as5_config get url ≡ ok (generate_as5_config config))
      × (resolve_supported_encryption_algorithms (generate_as5_config config)
          ≡ "RSA-OAEP" ∷ "RSA-OAEP-256" ∷ [])
unfolding fetch_as5_config
fetch-generate_as5_config config get url named reply =
    let read_back = decode-generate config.supported_document_types config in
    (ground (arith, read_back, validate-generate config named), resolve-generate config)
