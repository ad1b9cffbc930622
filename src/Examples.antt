-- ===== src/Examples.antt =====
-- The theorems at concrete inputs: a toy engine, a driver, and small tables that the examples share.
pub mod Crypto
pub mod Store
pub mod Queue
pub mod Auth
pub mod Discovery
pub mod Api
pub mod Receipts
pub mod Settings
pub mod Dashboard
pub mod Hub
pub mod Watcher
pub mod Config
pub mod Access
use fidex_go_node.Common.{String, true, none, some, [], ◌∷◌, ◌≡◌, refl, arith, contains}
use fidex_go_node.Errors.{plain, Result, ok, err}
use fidex_go_node.Json.{Json, text, object, end, field, Body, raw, json}
use fidex_go_node.Domain.{Message, queued, outbound, Partner}
use fidex_go_node.Crypto.{Jwk, Jose, Engine}
use fidex_go_node.Crypto.RoundTrip.{IsReliable}
use fidex_go_node.Store.{Driver, is_unique_constraint}
use fidex_go_node.Store.Messages.{Messages}

-- One key pair, which signs JSON texts only and whose ciphertexts are the plaintexts.
abbrev sign_text : Body → Result String
sign_text (json (text s)) = ok s
sign_text _ = err (plain "not a text")

abbrev toy_key : Jwk (Unit {0})
toy_key = record { key = some tt; key_id = "k"; algorithm = "RS256"; use_for = "sig" }

abbrev toy_enc_key : Jwk (Unit {0})
toy_enc_key = record { key = some tt; key_id = "k:enc"; algorithm = "RSA-OAEP"; use_for = "enc" }

abbrev pub toy : Jose
toy = record {
  PrivateKey = Unit {0};
  PublicKey = Unit {0};
  Signer = Unit {0};
  Jws = String;
  Encrypter = Unit {0};
  Jwe = String;
  public = λ k. tt;
  new_signer = λ a k. ok tt;
  sign = λ s p. sign_text p;
  serialize_signed = λ j. ok j;
  parse_signed = λ algs t. ok t;
  verify = λ k j. ok (json (text j));
  new_encrypter = λ c a k. ok tt;
  encrypt = λ e n t. ok t;
  serialize_encrypted = λ j. ok j;
  parse_encrypted = λ algs contents t. ok t;
  decrypt = λ k j. ok j;
  parse_key_set = λ t. ok (toy_key ∷ toy_enc_key ∷ []);
  print_key_set = λ ks. ok "keys";
  digest = λ b. "digest";
  digest_hex = λ t. "hex";
}

toy_signs :
    (payload : Body) (jws t : String)
    → sign_text payload ≡ ok jws
    → toy.serialize_signed jws ≡ ok t
    → ok (json (text t)) ≡ ok payload
toy_signs (json (text s)) jws t h g = ground arith
toy_signs (json Json.null) jws t h g = ground arith
toy_signs (json (Json.bool b)) jws t h g = ground arith
toy_signs (json (Json.number b)) jws t h g = ground arith
toy_signs (json (Json.array b)) jws t h g = ground arith
toy_signs (json (object b)) jws t h g = ground arith
toy_signs (raw s) jws t h g = ground arith

pub toy-IsReliable : IsReliable toy
toy-IsReliable = record {
  signed_verifies =
      λ key payload signer jws t alg accepted m a b c. (t, refl, toy_signs payload jws t b c);
  sealed_opens = λ alg key entropy inner encrypter jwe t content accepted contents m n a b c.
      (t, refl, ground arith);
}

abbrev pub engine : Engine toy
engine = record { private_key = tt; node_id = "node-a" }

pub unique_reported : is_unique_constraint "UNIQUE constraint failed" ≡ true
unfolding is_unique_constraint contains
unique_reported = refl

abbrev pub sqlite : Driver
sqlite = record {
  unique_error = "UNIQUE constraint failed";
  unique_error_reported = unique_reported;
}

abbrev pub order : Json
order = text "order"

-- A business document in the queue.
abbrev pub first : Message
first = record {
  id = 1;
  message_id = "m-1";
  direction = outbound;
  status = queued;
  payload = json (
      object (
        field "destination_partner_id" (text "node-b")
          (field "document_type" (text "ORDER") (field "payload" order end))));
  job_type = "process_outbound";
  retry_count = 0;
  next_retry_at = none;
  last_error = "";
  created_at = 5;
}

abbrev pub one_message : Messages
one_message = record { rows = first ∷ []; sequence = 1 }

abbrev pub partner_b : Partner
partner_b = record {
  id = 1;
  partner_id = "node-b";
  name = "B";
  jwks_url = "https://b/jwks";
  message_endpoint = "https://b/inbound";
  mdn_receipt_endpoint = "https://b/receipt";
  public_key_jwks = "keys";
  supported_encryption_algorithms = [];
  last_key_refresh = none;
  created_at = 1;
  updated_at = 1;
}
