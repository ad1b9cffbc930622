-- ===== src/Strconv.antt =====
-- strconv.Atoi, which the query parameters and the environment are read with: an optional sign and
-- decimal digits that fit an int64; anything else is an error.
use Prim.Native.Char.{code}
use Prim.Native.String
use text.Mathlib.TextLemmas.{nil-append, cons-append}
use fidex_go_node.Common.{
  ℕ, zero, suc, ◌+◌, ◌*◌, ◌/◌, ◌%◌, ◌^◌, ◌<◌, String, Bool, true, false, Option, none, some, ◌≡◌,
  ◌-◌, ap, inl, inr, arith, refl, ltb, same_number, if◌then◌else◌, Bool-cases, ℤ, pos, decimal,
  digit, decimal_from,
}
use fidex_go_node.Json.{digits, digits_from, within_int, integer}

unfoldable pub atoi : String → Option ℤ
atoi String.[] = none
atoi (String.◌∷◌ c s) =
    if same_number (code c) b'+' then within_int (digits s) else integer (String.◌∷◌ c s)

digits_from-digit : (r d : ℕ) → d < 10 → digits_from r (digit d) ≡ some (r * 10 + d)
unfolding digits_from
digits_from-digit r zero h = refl
digits_from-digit r (suc zero) h = refl
digits_from-digit r (suc (suc zero)) h = refl
digits_from-digit r (suc (suc (suc zero))) h = refl
digits_from-digit r (suc (suc (suc (suc zero)))) h = refl
digits_from-digit r (suc (suc (suc (suc (suc zero))))) h = refl
digits_from-digit r (suc (suc (suc (suc (suc (suc zero)))))) h = refl
digits_from-digit r (suc (suc (suc (suc (suc (suc (suc zero))))))) h = refl
digits_from-digit r (suc (suc (suc (suc (suc (suc (suc (suc zero)))))))) h = refl
digits_from-digit r (suc (suc (suc (suc (suc (suc (suc (suc (suc zero))))))))) h = refl
digits_from-digit r (suc (suc (suc (suc (suc (suc (suc (suc (suc (suc n)))))))))) h = ground arith

digits_from-append :
    (r m d : ℕ) (s : String)
    → d < 10
    → digits_from r s ≡ some m
    → digits_from r (String.◌++◌ s (digit d)) ≡ some (m * 10 + d)
unfolding digits_from
digits_from-append r m d String.[] h e =
    rw (nil-append (digit d), digits_from-digit r d h) (ground arith)
digits_from-append r m d (String.◌∷◌ c s) h e =
    rw (cons-append c s (digit d))
      (ground (arith, digits_from-append (r * 10 + (code c - b'0')) m d s h))

digits_from-decimal_from : (fuel n : ℕ) → n < fuel → digits_from 0 (decimal_from fuel n) ≡ some n
unfolding decimal_from
digits_from-decimal_from zero n h = ground arith
digits_from-decimal_from (suc fuel) n h = elim (Bool-cases (ltb n 10)) [
  | inl e ↦ rw (e, digits_from-digit 0 n (ground arith)) (ground arith)
  | inr e ↦
      rw
        (
          e,
          digits_from-append 0 (n / 10) (n % 10) (decimal_from fuel (n / 10)) (omega arith)
              (digits_from-decimal_from fuel (n / 10) (ground arith)),
        )
        (ap some (omega arith))
]

is_filled : String → Bool
is_filled String.[] = false
is_filled (String.◌∷◌ c s) = true

digit-is_filled : (d : ℕ) → d < 10 → is_filled (digit d) ≡ true
unfolding is_filled
digit-is_filled zero h = refl
digit-is_filled (suc zero) h = refl
digit-is_filled (suc (suc zero)) h = refl
digit-is_filled (suc (suc (suc zero))) h = refl
digit-is_filled (suc (suc (suc (suc zero)))) h = refl
digit-is_filled (suc (suc (suc (suc (suc zero))))) h = refl
digit-is_filled (suc (suc (suc (suc (suc (suc zero)))))) h = refl
digit-is_filled (suc (suc (suc (suc (suc (suc (suc zero))))))) h = refl
digit-is_filled (suc (suc (suc (suc (suc (suc (suc (suc zero)))))))) h = refl
digit-is_filled (suc (suc (suc (suc (suc (suc (suc (suc (suc zero))))))))) h = refl
digit-is_filled (suc (suc (suc (suc (suc (suc (suc (suc (suc (suc n)))))))))) h = ground arith

append-is_filled : (s t : String) → is_filled t ≡ true → is_filled (String.◌++◌ s t) ≡ true
unfolding is_filled
append-is_filled String.[] t h = rw (nil-append t) h
append-is_filled (String.◌∷◌ c s) t h = rw (cons-append c s t) refl

decimal-is_filled : (fuel n : ℕ) → is_filled (decimal_from (suc fuel) n) ≡ true
unfolding decimal_from
decimal-is_filled fuel n = elim (Bool-cases (ltb n 10)) [
  | inl e ↦ rw e (digit-is_filled n (ground arith))
  | inr e ↦ rw e (
      append-is_filled (decimal_from fuel (n / 10)) (digit (n % 10))
        (digit-is_filled (n % 10) (omega arith)))
]

atoi_of_digits :
    (s : String) (n : ℕ)
    → is_filled s ≡ true
    → digits_from 0 s ≡ some n
    → n < 2 ^ 63
    → atoi s ≡ some (pos n)
unfolding atoi integer digits within_int digits_from is_filled
atoi_of_digits String.[] n f h small = ground arith
atoi_of_digits (String.◌∷◌ c s) n f h small = ground arith

-- A number printed in decimal is read back, when it fits an int64.
pub atoi-decimal : (n : ℕ) → n < 2 ^ 63 → atoi (decimal n) ≡ some (pos n)
unfolding decimal
atoi-decimal n small =
    atoi_of_digits _ n (decimal-is_filled n n) (digits_from-decimal_from (suc n) n (omega arith))
      small

integer_of_digits :
    (s : String) (n : ℕ)
    → is_filled s ≡ true
    → digits_from 0 s ≡ some n
    → n < 2 ^ 63
    → integer s ≡ some (pos n)
unfolding integer digits within_int digits_from is_filled
integer_of_digits String.[] n f h small = ground arith
integer_of_digits (String.◌∷◌ c s) n f h small = ground arith

-- The same of a number in a JSON document.
pub integer-decimal : (n : ℕ) → n < 2 ^ 63 → integer (decimal n) ≡ some (pos n)
unfolding decimal
integer-decimal n small =
    integer_of_digits _ n (decimal-is_filled n n) (digits_from-decimal_from (suc n) n (omega arith))
      small
