-- ===== src/Crypto/RoundTrip.antt =====
-- internal/crypto/as5_engine.go: what one node signs and seals, the other opens and verifies.
use mathlib.Core.List.{Memᴰ}
use fidex_go_node.Common.{ℕ, String, true, Option, List, [], ◌∷◌, ◌≡◌, arith, refl, inl, inr}
use fidex_go_node.Errors.{ok, Result-cases, map_error-eq-ok}
use fidex_go_node.Json.{Body, json, decode, same_key}
use fidex_go_node.Crypto.{
  KeyAlgorithm, rsa_oaep, rsa_oaep_256, SignatureAlgorithm, rs256, ContentEncryption, a256gcm, Jose,
  Engine, JmdnReceipt, encode_receipt, decode_receipt, signed, sealed, jose_key_algorithm,
  sign_and_encrypt_with_alg, decrypt_and_verify, create_jmdn, verify_jmdn,
}

-- What the engine relies on in go-jose: a signature verifies under the signer's public key, and a
-- text sealed for a public key is opened by its private key, each read by a call whose lists of
-- algorithms have the ones that were used.
pub record IsReliable (jose : Jose) : Type 0 where
  pub signed_verifies :
      (key : jose.PrivateKey) (payload : Body) (signer : jose.Signer) (jws : jose.Jws) (t : String)
      (alg : SignatureAlgorithm) (accepted : List SignatureAlgorithm)
      → Memᴰ alg accepted
      → jose.new_signer alg key ≡ ok signer
      → jose.sign signer payload ≡ ok jws
      → jose.serialize_signed jws ≡ ok t
      → (back : jose.Jws) × (jose.parse_signed accepted t ≡ ok back)
        × (jose.verify (jose.public key) back ≡ ok payload)
  pub sealed_opens :
      (alg : KeyAlgorithm) (key : jose.PrivateKey) (entropy : ℕ) (inner : String)
      (encrypter : jose.Encrypter) (jwe : jose.Jwe) (t : String) (content : ContentEncryption)
      (accepted : List KeyAlgorithm) (accepted_contents : List ContentEncryption)
      → Memᴰ alg accepted
      → Memᴰ content accepted_contents
      → jose.new_encrypter content alg (jose.public key) ≡ ok encrypter
      → jose.encrypt encrypter entropy inner ≡ ok jwe
      → jose.serialize_encrypted jwe ≡ ok t
      → (back : jose.Jwe) × (jose.parse_encrypted accepted accepted_contents t ≡ ok back)
        × (jose.decrypt key back ≡ ok inner)

-- DecryptAndVerify accepts either of the two algorithms.
is_accepted : (alg : KeyAlgorithm) → Memᴰ alg (rsa_oaep ∷ rsa_oaep_256 ∷ [])
is_accepted rsa_oaep = Memᴰ.head refl
is_accepted rsa_oaep_256 = Memᴰ.tail (Memᴰ.head refl)

module _ (jose : Jose) (reliable : IsReliable jose) where
  signed_lem :
      (key : jose.PrivateKey) (what whole : String) (payload : Body) (t : String)
      → signed jose key what whole payload ≡ ok t
      → (back : jose.Jws) × (jose.parse_signed (rs256 ∷ []) t ≡ ok back)
        × (jose.verify (jose.public key) back ≡ ok payload)
  unfolding signed
  signed_lem key what whole payload t h = elim (Result-cases (jose.new_signer rs256 key)) [
    | inr (e, a) ↦ cc (rw a at h)
    | inl (signer, a) ↦ elim (Result-cases (jose.sign signer payload)) [
      | inr (e, b) ↦ cc (rw (a, b) at h)
      | inl (jws, b) ↦
          reliable.signed_verifies key payload signer jws t rs256 (rs256 ∷ []) (Memᴰ.head refl) a b
            (map_error-eq-ok _ _ (rw (a, b) at h))
    ]
  ]

  sealed_lem :
      (receiver : Engine jose) (alg : KeyAlgorithm) (entropy : ℕ) (inner jwe : String)
      → sealed jose entropy inner (jose.public receiver.private_key) alg ≡ ok jwe
      → (back : jose.Jwe) × (jose.parse_encrypted (rsa_oaep ∷ rsa_oaep_256 ∷ []) (a256gcm ∷ []) jwe
          ≡ ok back)
        × (jose.decrypt receiver.private_key back ≡ ok inner)
  unfolding sealed
  sealed_lem receiver alg entropy inner t h =
      elim (Result-cases (jose.new_encrypter a256gcm alg (jose.public receiver.private_key))) [
        | inr (e, a) ↦ cc (rw a at h)
        | inl (encrypter, a) ↦ elim (Result-cases (jose.encrypt encrypter entropy inner)) [
          | inr (e, c) ↦ cc (rw (a, c) at h)
          | inl (jwe, c) ↦
              reliable.sealed_opens alg receiver.private_key entropy inner encrypter jwe t a256gcm
                (rsa_oaep ∷ rsa_oaep_256 ∷ []) (a256gcm ∷ []) (is_accepted alg) (Memᴰ.head refl) a c
                (map_error-eq-ok _ _ (rw (a, c) at h))
        ]
      ]

  -- What SignAndEncryptWithAlg makes of a payload for a receiver, DecryptAndVerify with the
  -- receiver's private key and the sender's public key turns back into the payload, whichever of
  -- the algorithms was used, given that go-jose reads, opens and verifies what it sealed and signed
  -- under an algorithm of the lists that a call accepts.
  pub sign_and_encrypt-decrypt_and_verify :
      (sender receiver : Engine jose) (entropy : ℕ) (payload : Body) (alg jwe : String)
      → sign_and_encrypt_with_alg jose sender entropy payload (jose.public receiver.private_key) alg
        ≡ ok jwe
      → decrypt_and_verify jose receiver jwe (jose.public sender.private_key) ≡ ok payload
  unfolding sign_and_encrypt_with_alg decrypt_and_verify
  sign_and_encrypt-decrypt_and_verify sender receiver entropy payload alg jwe h =
      elim (Result-cases (jose_key_algorithm alg)) [
        | inr (e, a) ↦ cc (rw a at h)
        | inl (key_alg, a) ↦
            elim (Result-cases (signed jose sender.private_key "payload" "JWS" payload)) [
              | inr (e, s) ↦ cc (rw (a, s) at h)
              | inl (jws, s) ↦
                  let (outer, p, d) =
                    sealed_lem receiver key_alg entropy jws jwe (rw (a, s) at h) in
                  let (inner, q, v) = signed_lem sender.private_key "payload" "JWS" payload jws s in
                  rw (p, d, q, v) refl
            ]
      ]

  decode-encode_receipt : (r : JmdnReceipt) → decode_receipt (json (encode_receipt r)) ≡ (r, true)
  unfolding decode_receipt encode_receipt decode same_key
  decode-encode_receipt r = ground arith

  -- A J-MDN that a node signs verifies under its public key, and VerifyJMDN returns the message_id,
  -- the status, the timestamp and the error log that were signed, with the digest of the payload.
  create_jmdn-verify_jmdn :
      (engine : Engine jose) (timestamp id status : String) (payload : Body)
      (error_log : Option String) (jws : String)
      → create_jmdn jose engine timestamp id status payload error_log ≡ ok jws
      → verify_jmdn jose jws (jose.public engine.private_key)
        ≡ ok (record {
          original_message_id = id;
          status = status;
          hash_verification = jose.digest payload;
          timestamp = timestamp;
          error_log = error_log;
        })
  unfolding create_jmdn verify_jmdn
  create_jmdn-verify_jmdn engine timestamp id status payload error_log jws h =
      let (back, p, v) = signed_lem engine.private_key "J-MDN" "J-MDN" _ jws h in
      rw p (rw v (rw decode-encode_receipt refl))
