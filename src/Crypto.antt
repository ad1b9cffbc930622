-- ===== src/Crypto.antt =====
-- internal/crypto/as5_engine.go: the AS5 engine. Signing and encryption themselves are go-jose's,
-- and PEM, X.509 and SHA-256 are the Go runtime's: they are the operations of a record, which the
-- engine takes as a parameter. Signed and sealed texts are compact serializations.
pub mod Negotiate
pub mod Keys
pub mod RoundTrip
use fidex_go_node.Common.{
  ℕ, String, Bool, true, false, Option, none, some, List, [], ◌∷◌, ◌==◌, ◌||◌, if◌then◌else◌,
  sprint, quote,
}
use fidex_go_node.Errors.{plain, Result, ok, err, ◌>>=◌, ◌>>◌, map_error, context}
use fidex_go_node.Json.{
  Body, Json, text, object, Fields, end, field, json, Member, text_member, decode,
}

pub data KeyAlgorithm : Type 0 where
  rsa_oaep rsa_oaep_256 : KeyAlgorithm

-- The algorithms of go-jose that the engine names besides.
pub data SignatureAlgorithm : Type 0 where
  rs256 : SignatureAlgorithm

pub data ContentEncryption : Type 0 where
  a256gcm : ContentEncryption

-- A key of a JWKS; `key` is none where it is no RSA public key.
pub record Jwk (P : Type 0) : Type 0 where
  pub key : Option P
  pub key_id : String
  pub algorithm : String
  pub use_for : String

pub record Jose : Type 1 where
  pub PrivateKey : Type 0
  pub PublicKey : Type 0
  pub Signer : Type 0
  pub Jws : Type 0
  pub Encrypter : Type 0
  pub Jwe : Type 0
  pub public : PrivateKey → PublicKey
  pub new_signer : SignatureAlgorithm → PrivateKey → Result Signer
  pub sign : Signer → Body → Result Jws
  pub serialize_signed : Jws → Result String
  -- A text under an algorithm that is not in the list is refused.
  pub parse_signed : List SignatureAlgorithm → String → Result Jws
  pub verify : PublicKey → Jws → Result Body
  pub new_encrypter : ContentEncryption → KeyAlgorithm → PublicKey → Result Encrypter
  -- The number is the randomness that one encryption draws.
  pub encrypt : Encrypter → ℕ → String → Result Jwe
  pub serialize_encrypted : Jwe → Result String
  pub parse_encrypted : List KeyAlgorithm → List ContentEncryption → String → Result Jwe
  pub decrypt : PrivateKey → Jwe → Result String
  pub parse_key_set : String → Result (List (Jwk PublicKey))
  pub print_key_set : List (Jwk PublicKey) → Result String
  -- base64(SHA-256(payload))
  pub digest : Body → String
  -- hex(SHA-256(text)), in lower case
  pub digest_hex : String → String

abbrev pub alg_rsa_oaep : String
alg_rsa_oaep = "RSA-OAEP"

abbrev pub alg_rsa_oaep_256 : String
alg_rsa_oaep_256 = "RSA-OAEP-256"

unfoldable pub jose_key_algorithm : String → Result KeyAlgorithm
jose_key_algorithm alg =
    if alg == "" || alg == alg_rsa_oaep
    then ok rsa_oaep
    else if alg == alg_rsa_oaep_256
    then ok rsa_oaep_256
    else err (
        plain (
          sprint (
            "unsupported encryption algorithm "
            ∷ quote alg
            ∷ " (want "
            ∷ alg_rsa_oaep
            ∷ " or "
            ∷ alg_rsa_oaep_256
            ∷ ")"
            ∷ [])))

-- A J-MDN as it is signed; `error_log` is a pointer that may be nil.
pub record JmdnReceipt : Type 0 where
  pub original_message_id : String
  pub status : String
  pub hash_verification : String
  pub timestamp : String
  pub error_log : Option String

abbrev pub no_receipt : JmdnReceipt
no_receipt = record {
  original_message_id = "";
  status = "";
  hash_verification = "";
  timestamp = "";
  error_log = none;
}

abbrev error_log_fields : Option String → Fields
error_log_fields none = end
error_log_fields (some log) = field "error_log" (text log) end

-- json.Marshal of a JMDNReceipt.
unfoldable pub encode_receipt : JmdnReceipt → Json
encode_receipt r = object (
    field "original_message_id" (text r.original_message_id) (
      field "status" (text r.status) (
        field "hash_verification" (text r.hash_verification)
          (field "timestamp" (text r.timestamp) (error_log_fields r.error_log)))))

abbrev pub error_log_member : Member JmdnReceipt
error_log_member = record {
  key = "error_log";
  put = λ v r. elim v [
    | Json.null ↦ (record r { error_log = none }, true)
    | text t ↦ (record r { error_log = some t }, true)
    | _ ↦ (r, false)
  ];
}

-- json.Unmarshal into a JMDNReceipt, and into the JmdnReceipt of internal/api.
unfoldable pub decode_receipt : Body → JmdnReceipt × Bool
decode_receipt body =
    decode
      (text_member "original_message_id" (λ t r. record r { original_message_id = t })
        ∷ text_member "status" (λ t r. record r { status = t })
        ∷ text_member "hash_verification" (λ t r. record r { hash_verification = t })
        ∷ text_member "timestamp" (λ t r. record r { timestamp = t })
        ∷ error_log_member
        ∷ [])
      body no_receipt

module _ (jose : Jose) where
  pub record Engine : Type 0 where
    pub private_key : jose.PrivateKey
    pub node_id : String

  -- The steps that sign a payload, with what the two callers add to a failure.
  signed : jose.PrivateKey → String → String → Body → Result String
  signed key what whole payload = do
    signer ← map_error (context "failed to create signer") (jose.new_signer rs256 key)
    jws ← map_error (context (sprint ("failed to sign " ∷ what ∷ []))) (jose.sign signer payload)
    map_error (context (sprint ("failed to serialize " ∷ whole ∷ []))) (jose.serialize_signed jws)

  -- The steps that encrypt a signed text for a receiver.
  sealed : ℕ → String → jose.PublicKey → KeyAlgorithm → Result String
  sealed entropy jws receiver key_alg = do
    encrypter ←
        map_error (context "failed to create encrypter")
          (jose.new_encrypter a256gcm key_alg receiver)
    jwe ← map_error (context "failed to encrypt JWS") (jose.encrypt encrypter entropy jws)
    map_error (context "failed to serialize JWE") (jose.serialize_encrypted jwe)

  unfoldable pub sign_and_encrypt_with_alg :
      Engine → ℕ → Body → jose.PublicKey → String → Result String
  unfolding signed sealed
  sign_and_encrypt_with_alg engine entropy payload receiver alg = do
    key_alg ← jose_key_algorithm alg
    jws ← signed engine.private_key "payload" "JWS" payload
    sealed entropy jws receiver key_alg

  unfoldable sign_and_encrypt : Engine → ℕ → Body → jose.PublicKey → Result String
  unfolding sign_and_encrypt_with_alg
  sign_and_encrypt engine entropy payload receiver =
      sign_and_encrypt_with_alg engine entropy payload receiver alg_rsa_oaep

  unfoldable pub decrypt_and_verify : Engine → String → jose.PublicKey → Result Body
  decrypt_and_verify engine jwe_compact sender = do
    jwe ←
        map_error (context "failed to parse JWE")
          (jose.parse_encrypted (rsa_oaep ∷ rsa_oaep_256 ∷ []) (a256gcm ∷ []) jwe_compact)
    inner ← map_error (context "failed to decrypt JWE") (jose.decrypt engine.private_key jwe)
    jws ← map_error (context "failed to parse JWS") (jose.parse_signed (rs256 ∷ []) inner)
    map_error (context "failed to verify JWS signature") (jose.verify sender jws)

  -- ProcessInboundEnvelope, of the envelope's payload.
  unfoldable process_inbound_envelope : Engine → String → jose.PublicKey → Result Body
  process_inbound_envelope engine payload sender =
      map_error (context "failed to decrypt envelope") (decrypt_and_verify engine payload sender)

  -- CreateJMDN at the instant whose RFC 3339 text is `timestamp`.
  unfoldable pub create_jmdn :
      Engine → String → String → String → Body → Option String → Result String
  unfolding signed
  create_jmdn engine timestamp original_message_id status payload error_log =
      signed engine.private_key "J-MDN" "J-MDN" (
        json (
          encode_receipt (record {
            original_message_id = original_message_id;
            status = status;
            hash_verification = jose.digest payload;
            timestamp = timestamp;
            error_log = error_log;
          })))

  unfoldable pub verify_jmdn : String → jose.PublicKey → Result JmdnReceipt
  verify_jmdn jws_compact sender = do
    jws ←
        map_error (context "failed to parse J-MDN JWS") (jose.parse_signed (rs256 ∷ []) jws_compact)
    receipt_json ← map_error (context "failed to verify J-MDN signature") (jose.verify sender jws)
    let (receipt, fits) = decode_receipt receipt_json
    if fits then ok receipt else err (plain "failed to unmarshal J-MDN")
