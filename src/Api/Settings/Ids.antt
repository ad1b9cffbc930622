-- ===== src/Api/Settings/Ids.antt =====
-- internal/api/settings_handlers.go: the database ids of the settings routes, which stand in the
-- path as text. `parseInt64` takes the digits of the text and leaves out every other character; its
-- int64 wraps around. It is kept as a 64-bit word and read as two's complement.
use Prim.Native.Char.{code}
use Prim.Native.String
use Prim.Native.Nat.{◌/◌, ◌%◌}
use text.Mathlib.TextLemmas.{nil-append, cons-append}
use fidex_go_node.Common.{
  ℕ, zero, suc, ◌+◌, ◌-◌, ◌*◌, ◌^◌, ◌<◌, String, Bool, ◌&&◌, ltb, leb, if◌then◌else◌, ◌≡◌, arith,
  refl, ℤ, pos, negsuc, decimal, digit, decimal_from, Bool-cases, inl, inr,
}

abbrev is_digit : ℕ → Bool
is_digit c = leb b'0' c && leb c b'9'

-- One turn of the loop.
abbrev add_digit : ℕ → ℕ → ℕ
add_digit result c = if is_digit c then (result * 10 + (c - b'0')) % 2 ^ 64 else result

parse_from : ℕ → String → ℕ
parse_from result String.[] = result
parse_from result (String.◌∷◌ c s) = parse_from (add_digit result (code c)) s

-- A 64-bit word as an int64.
abbrev signed : ℕ → ℤ
signed w = if ltb w (2 ^ 63) then pos w else negsuc (2 ^ 64 - 1 - w)

unfoldable pub parse_int64 : String → ℤ
unfolding parse_from
parse_int64 s = signed (parse_from 0 s)

parse_from-append :
    (r : ℕ) (s t : String) → parse_from r (String.◌++◌ s t) ≡ parse_from (parse_from r s) t
unfolding parse_from
parse_from-append r String.[] t = rw (nil-append t) refl
parse_from-append r (String.◌∷◌ c s) t =
    rw (cons-append c s t) (parse_from-append (add_digit r (code c)) s t)

parse_from-digit : (r d : ℕ) → d < 10 → parse_from r (digit d) ≡ (r * 10 + d) % 2 ^ 64
unfolding parse_from
parse_from-digit r zero h = refl
parse_from-digit r (suc zero) h = refl
parse_from-digit r (suc (suc zero)) h = refl
parse_from-digit r (suc (suc (suc zero))) h = refl
parse_from-digit r (suc (suc (suc (suc zero)))) h = refl
parse_from-digit r (suc (suc (suc (suc (suc zero))))) h = refl
parse_from-digit r (suc (suc (suc (suc (suc (suc zero)))))) h = refl
parse_from-digit r (suc (suc (suc (suc (suc (suc (suc zero))))))) h = refl
parse_from-digit r (suc (suc (suc (suc (suc (suc (suc (suc zero)))))))) h = refl
parse_from-digit r (suc (suc (suc (suc (suc (suc (suc (suc (suc zero))))))))) h = refl
parse_from-digit r (suc (suc (suc (suc (suc (suc (suc (suc (suc (suc n)))))))))) h = omega arith

parse_from-decimal_from :
    (fuel n : ℕ) → n < fuel → n < 2 ^ 63 → parse_from 0 (decimal_from fuel n) ≡ n
unfolding decimal_from
parse_from-decimal_from zero n h small = omega arith
parse_from-decimal_from (suc fuel) n h small = elim (Bool-cases (ltb n 10)) [
  | inl e ↦ rw (e, parse_from-digit 0 n (ground arith)) (omega arith)
  | inr e ↦
      rw
        (
          e,
          parse_from-append 0 (decimal_from fuel (n / 10)) (digit (n % 10)),
          parse_from-decimal_from fuel (n / 10) (ground arith) (omega arith),
          parse_from-digit (n / 10) (n % 10) (omega arith),
        )
        (omega arith)
]

-- The id of a row, printed in decimal as the listings print it, is read back as the same id, for
-- every id below 2^63.
pub parse_int64-decimal : (n : ℕ) → n < 2 ^ 63 → parse_int64 (decimal n) ≡ pos n
unfolding parse_int64 decimal
parse_int64-decimal n small =
    rw (parse_from-decimal_from (suc n) n (omega arith) small) (ground arith)
