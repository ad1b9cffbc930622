-- ===== src/Crypto/Keys.antt =====
-- internal/crypto/as5_engine.go: the JWKS that a node publishes, and the keys taken from a peer's.
use fidex_go_node.Common.{
  String, Option, none, some, List, [], ◌∷◌, ◌==◌, ◌≡◌, arith, eq_iff, if◌then◌else◌, ◌⊎◌, inl, inr,
  sprint, refl, Bool-cases, Option-cases,
}
use mathlib.Core.List.{Memᴰ}
use fidex_go_node.Errors.{plain, Result, ok, err, ◌>>=◌, map_error, context, map_error-eq-ok}
use fidex_go_node.Crypto.{Jwk, Jose, Engine}

module _ {P : Type 0} where
  -- The first RSA key of the given use.
  unfoldable first_of_use : String → List (Jwk P) → Option P
  first_of_use use_for [] = none
  first_of_use use_for (jwk ∷ keys) =
      let later = first_of_use use_for keys in
      if jwk.use_for == use_for then elim jwk.key [ none ↦ later | some pk ↦ some pk ] else later

  -- The first RSA key.
  unfoldable first_rsa : List (Jwk P) → Option P
  first_rsa [] = none
  first_rsa (jwk ∷ keys) = elim jwk.key [ none ↦ first_rsa keys | some pk ↦ some pk ]

  unfoldable pub select_key : String → List (Jwk P) → Result P
  unfolding first_of_use first_rsa
  select_key use_for [] = err (plain "no keys found in JWKS")
  select_key use_for (jwk ∷ jwks) =
      let keys = jwk ∷ jwks in
      elim (first_of_use use_for keys) [
        | some pk ↦ ok pk
        | none ↦ elim (first_rsa keys) [
          | some pk ↦ ok pk
          | none ↦ err (plain "no RSA public key found in JWKS")
        ]
      ]

  -- `pk` is an RSA key of the set, and it stands for the given use.
  abbrev IsFor : String → List (Jwk P) → P → Type 0
  IsFor use_for keys pk =
      (jwk : Jwk P) × Memᴰ jwk keys × (jwk.key ≡ some pk) × (jwk.use_for ≡ use_for)

  abbrev IsRsaOf : List (Jwk P) → P → Type 0
  IsRsaOf keys pk = (jwk : Jwk P) × Memᴰ jwk keys × (jwk.key ≡ some pk)

  first_of_use-IsFor :
      (use_for : String) (keys : List (Jwk P)) (pk : P)
      → first_of_use use_for keys ≡ some pk
      → IsFor use_for keys pk
  unfolding first_of_use
  first_of_use-IsFor use_for [] pk h = cc
  first_of_use-IsFor use_for (jwk ∷ keys) pk h = elim (Bool-cases (jwk.use_for == use_for)) [
    | inr other ↦
        let (k, m, has_key, fits) = first_of_use-IsFor use_for keys pk (rw other at h) in
        (k, Memᴰ.tail m, has_key, fits)
    | inl same ↦ elim (Option-cases jwk.key) [
      | inr (found, e) ↦ (jwk, Memᴰ.head refl, ground arith, (eq_iff jwk.use_for use_for).0 same)
      | inl e ↦
          let (k, m, has_key, fits) = first_of_use-IsFor use_for keys pk (ground arith) in
          (k, Memᴰ.tail m, has_key, fits)
    ]
  ]

  first_of_use-none :
      (use_for : String) (keys : List (Jwk P)) (jwk : Jwk P) (pk : P)
      → first_of_use use_for keys ≡ none
      → Memᴰ jwk keys
      → jwk.key ≡ some pk
      → jwk.use_for ≡ use_for
      → ⊥
  unfolding first_of_use
  first_of_use-none use_for [] jwk pk h m has_key fits = elim m [ ]
  first_of_use-none use_for (k ∷ keys) jwk pk h (Memᴰ.head e) has_key fits =
      let key : k.key ≡ some pk = rw (← e) has_key in
      let same : k.use_for ≡ use_for = rw (← e) fits in ground (arith, eq_iff k.use_for use_for)
  first_of_use-none use_for (k ∷ keys) jwk pk h (Memᴰ.tail m) has_key fits =
      first_of_use-none use_for keys jwk pk (ground arith) m has_key fits

  first_rsa-IsRsaOf : (keys : List (Jwk P)) (pk : P) → first_rsa keys ≡ some pk → IsRsaOf keys pk
  unfolding first_rsa
  first_rsa-IsRsaOf [] pk h = cc
  first_rsa-IsRsaOf (jwk ∷ keys) pk h = elim (Option-cases jwk.key) [
    | inr (found, e) ↦ (jwk, Memᴰ.head refl, ground arith)
    | inl e ↦
        let (k, m, has_key) = first_rsa-IsRsaOf keys pk (ground arith) in (k, Memᴰ.tail m, has_key)
  ]

  -- A selected key is an RSA key of the set that stands for the use asked for, or, where the set
  -- has no RSA key for that use, another RSA key of the set.
  select_key_sound :
      (use_for : String) (keys : List (Jwk P)) (pk : P)
      → select_key use_for keys ≡ ok pk
      → IsFor use_for keys pk ⊎ (IsRsaOf keys pk × ((other : P) → ¬ (IsFor use_for keys other)))
  unfolding select_key
  select_key_sound use_for [] pk h = cc
  select_key_sound use_for (jwk ∷ keys) pk h =
      elim (Option-cases (first_of_use use_for (jwk ∷ keys))) [
        | inr (found, e) ↦ inl (first_of_use-IsFor use_for (jwk ∷ keys) pk (ground arith))
        | inl missing ↦ inr (
          first_rsa-IsRsaOf (jwk ∷ keys) pk (ground arith),
          λ other (k, m, has_key, fits).
              first_of_use-none use_for (jwk ∷ keys) k other missing m has_key fits,
        )
      ]

module _ (jose : Jose) where
  unfoldable pub parse_public_key_by_use : String → String → Result jose.PublicKey
  unfolding select_key
  parse_public_key_by_use jwks use_for = do
    keys ← map_error (context "failed to unmarshal JWKS") (jose.parse_key_set jwks)
    select_key use_for keys

  -- ParsePublicKeyFromJWKS: the first key, whatever its use.
  unfoldable pub parse_public_key : String → Result jose.PublicKey
  parse_public_key jwks = do
    keys ← map_error (context "failed to unmarshal JWKS") (jose.parse_key_set jwks)
    elim keys [
      | [] ↦ err (plain "no keys found in JWKS")
      | jwk ∷ rest ↦ elim jwk.key [
        | none ↦ err (plain "key is not RSA public key")
        | some pk ↦ ok pk
      ]
    ]

  abbrev pub published : Engine jose → String → List (Jwk jose.PublicKey)
  published engine base =
      record {
        key = some (jose.public engine.private_key);
        key_id = sprint (base ∷ "-sig" ∷ []);
        algorithm = "RS256";
        use_for = "sig";
      }
      ∷ record {
        key = some (jose.public engine.private_key);
        key_id = sprint (base ∷ "-enc" ∷ []);
        algorithm = "RSA-OAEP";
        use_for = "enc";
      }
      ∷ []

  unfoldable pub export_jwks : Engine jose → String → Result String
  export_jwks engine base =
      map_error (context "failed to marshal JWKS") (jose.print_key_set (published engine base))

  -- A peer that reads the JWKS which a node exports gets the node's own public key for either use,
  -- given that go-jose reads back the key set that it printed.
  export-parse_by_use :
      (engine : Engine jose) (base : String) (jwks : String)
      → ((keys : List (Jwk jose.PublicKey)) (t : String)
          → jose.print_key_set keys ≡ ok t
          → jose.parse_key_set t ≡ ok keys)
      → export_jwks engine base ≡ ok jwks
      → (parse_public_key_by_use jwks "sig" ≡ ok (jose.public engine.private_key))
        × (parse_public_key_by_use jwks "enc" ≡ ok (jose.public engine.private_key))
  unfolding export_jwks parse_public_key_by_use
  export-parse_by_use engine base jwks reads h =
      let back = reads (published engine base) jwks (map_error-eq-ok _ _ h) in
      (rw back refl, rw back refl)
