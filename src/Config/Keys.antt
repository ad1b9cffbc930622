-- ===== src/Config/Keys.antt =====
-- config.go: the API key after a start.
use Prim.Native.Char.{code}
use Prim.Native.String
use Prim.Native.Nat.{◌%◌}
use text.Mathlib.TextLemmas.{nil-append, cons-append}
use fidex_go_node.Common.{
  ℕ, zero, suc, ◌<◌, String, Bool, true, Option, some, List, [], ◌∷◌, ◌++◌, ◌≡◌, ◌≢◌, inl, inr,
  arith, refl, ap, leb, ◌&&◌, ◌||◌, eq_iff, if◌then◌else◌, length, length-append, All, All-append,
  codes, is_empty, Bool-cases, Option-cases,
}
use fidex_go_node.Errors.{ok, Result-cases}
use fidex_go_node.Config.{Config}
use fidex_go_node.Config.Load.{
  charset, char_at, api_key_from, generate_api_key, Start, load, from_file,
}
use fidex_go_node.Config.Overrides.{load_from_env, load_from_flags}

abbrev is_alphanumeric : ℕ → Bool
is_alphanumeric c =
    (leb b'a' c && leb c b'z') || (leb b'A' c && leb c b'Z') || (leb b'0' c && leb c b'9')

abbrev IsAlphanumeric : ℕ → Type 0
IsAlphanumeric c = is_alphanumeric c ≡ true

abbrev are_alphanumeric : List ℕ → Bool
are_alphanumeric [] = true
are_alphanumeric (c ∷ cs) = is_alphanumeric c && are_alphanumeric cs

are_alphanumeric-All : (cs : List ℕ) → are_alphanumeric cs ≡ true → All IsAlphanumeric cs
are_alphanumeric-All [] h = tt
are_alphanumeric-All (c ∷ cs) h = elim (Bool-cases (is_alphanumeric c)) [
  | inl e ↦ (e, are_alphanumeric-All cs (rw e at h))
  | inr e ↦ ground (arith, rw e at h)
]

codes-append : (s t : String) → codes (String.◌++◌ s t) ≡ codes s ++ codes t
codes-append String.[] t = rw (nil-append t) refl
codes-append (String.◌∷◌ c s) t = rw (cons-append c s t) (ap (λ l. code c ∷ l) (codes-append s t))

-- One character of the charset.
abbrev IsOne : String → Type 0
IsOne s = (length (codes s) ≡ 1) × All IsAlphanumeric (codes s)

abbrev AllOne : String → Type 0
AllOne s = (n : ℕ) → n < length (codes s) → IsOne (char_at n s)

alphanumeric_chars : (s : String) → All IsAlphanumeric (codes s) → AllOne s
unfolding char_at
alphanumeric_chars String.[] a n h = omega arith
alphanumeric_chars (String.◌∷◌ c s) (p, a) zero h = (refl, (p, tt))
alphanumeric_chars (String.◌∷◌ c s) (p, a) (suc n) h = alphanumeric_chars s a n (omega (arith, h))

charset-IsAlphanumeric : All IsAlphanumeric (codes charset)
charset-IsAlphanumeric = are_alphanumeric-All (codes charset) refl

charset-length : length (codes charset) ≡ 62
charset-length = refl

-- What rand.Int promises: a number below the length of the charset.
abbrev pub IsBelow : (ℕ → Option ℕ) → Type 0
IsBelow random = (i r : ℕ) → random i ≡ some r → r < 62

-- A text of letters and digits, of the given length.
abbrev IsKey : ℕ → String → Type 0
IsKey n s = (length (codes s) ≡ n) × All IsAlphanumeric (codes s)

IsKey-append : (m : ℕ) (s t : String) → IsOne s → IsKey m t → IsKey (suc m) (String.◌++◌ s t)
IsKey-append m s t (one, a) (n, b) = rw (codes-append s t) (
  omega (arith, length-append (codes s) (codes t), one, n),
  All-append IsAlphanumeric (codes s) (codes t) a b,
)

api_key_from-IsKey :
    (random : ℕ → Option ℕ)
    → IsBelow random
    → (left i : ℕ) → IsKey left (api_key_from random left i)
unfolding api_key_from
api_key_from-IsKey random below zero i = (refl, tt)
api_key_from-IsKey random below (suc left) i =
    let rest = api_key_from-IsKey random below left (suc i) in
    let chars = alphanumeric_chars charset charset-IsAlphanumeric in
    elim (Option-cases (random i)) [
      | inl broken ↦ rw broken (
          IsKey-append left (char_at (i % 62) charset) _
            (chars (i % 62) (omega (arith, charset-length))) rest)
      | inr (r, drawn) ↦ rw drawn (
          IsKey-append left (char_at r charset) _
            (chars r (omega (arith, charset-length, below i r drawn))) rest)
    ]

generate_api_key-IsKey :
    (random : ℕ → Option ℕ) → IsBelow random → IsKey 32 (generate_api_key random)
unfolding generate_api_key
generate_api_key-IsKey random below = api_key_from-IsKey random below 32 0

IsKey-filled : (s : String) → IsKey 32 s → s ≢ ""
IsKey-filled s (n, a) e = omega (arith, ap (λ x. length (codes x)) e, n)

-- The first text that is not empty.
abbrev first_filled : List String → String → String
first_filled [] otherwise = otherwise
first_filled (t ∷ ts) otherwise = if is_empty t then first_filled ts otherwise else t

-- A start that succeeds ends with an internal API key that is not empty: the flag's, or else the
-- environment's, or else that of the config file, or else a new one, which is 32 letters and
-- digits, even when the random source fails.
pub load-IsKey :
    (start : Start) (c : Config)
    → IsBelow start.random
    → load start ≡ ok c
    → (f : Config) × (from_file start ≡ ok f)
      × (c.internal_api_key
          ≡ first_filled
              (start.flags.internal_api_key
                ∷ start.environment "FIDEX_API_KEY"
                ∷ f.internal_api_key
                ∷ [])
              (generate_api_key start.random))
      × (c.internal_api_key ≢ "")
      × IsKey 32 (generate_api_key start.random)
unfolding load load_from_env load_from_flags
load-IsKey start c below h =
    let made = generate_api_key-IsKey start.random below in
    let filled = IsKey-filled (generate_api_key start.random) made in
    elim (Result-cases (from_file start)) [
      | inr (e, bad) ↦ ground arith
      | inl (f, good) ↦ (
        f,
        good,
        ground arith,
        ground (
          arith,
          filled,
          eq_iff start.flags.internal_api_key "",
          eq_iff (start.environment "FIDEX_API_KEY") "",
          eq_iff f.internal_api_key "",
        ),
        made,
      )
    ]
