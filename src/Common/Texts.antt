-- ===== src/Common/Texts.antt =====
-- Texts: `fmt.Sprintf` with the verbs %s, %d and %q, `strings.Contains`, `strings.ToUpper`.
use Prim.Native.Nat.{ℕ, zero, suc, ◌-◌, ◌/◌, ◌%◌}
use Prim.Native.Char.{code}
use Prim.Native.String
use Prim.Native.String.{String}
use mathlib.Core.Path.{◌≡◌}
use mathlib.Core.Bool.{Bool, true, false, ◌&&◌, ◌||◌}
use mathlib.Core.List.{List, [], ◌∷◌}
use text.Mathlib.Text.{◌==◌, starts_with}
use text.Mathlib.TextPositions.{starts_with-append}
use fidex_go_node.Common.Tests.{ltb, leb, same_number, if◌then◌else◌}

abbrev pub is_empty : String → Bool
is_empty s = s == ""

-- The pieces of a formatted text, one after the other.
abbrev pub sprint : List String → String
sprint [] = ""
sprint (s ∷ ss) = String.◌++◌ s (sprint ss)

abbrev pub digit : ℕ → String
digit n =
    if same_number n 0
    then "0"
    else if same_number n 1
    then "1"
    else if same_number n 2
    then "2"
    else if same_number n 3
    then "3"
    else if same_number n 4
    then "4"
    else if same_number n 5
    then "5"
    else if same_number n 6
    then "6"
    else if same_number n 7
    then "7"
    else if same_number n 8
    then "8"
    else "9"

unfoldable pub decimal_from : ℕ → ℕ → String
decimal_from zero n = ""
decimal_from (suc fuel) n =
    let front = decimal_from fuel (n / 10) in
    if ltb n 10 then digit n else String.◌++◌ front (digit (n % 10))

-- %d of a number: it has fewer digits than its value plus one.
unfoldable pub decimal : ℕ → String
unfolding decimal_from
decimal n = decimal_from (suc n) n

-- %q: quotes and backslashes are escaped, every other character is kept.
escape : String → String
escape String.[] = ""
escape (String.◌∷◌ c s) =
    let rest = escape s in
    if same_number (code c) b'"'
    then String.◌++◌ "\\\"" rest
    else if same_number (code c) 92
    then String.◌++◌ "\\\\" rest
    else String.◌∷◌ c rest

unfoldable pub quote : String → String
unfolding escape
quote s = sprint ("\"" ∷ escape s ∷ "\"" ∷ [])

-- `strings.Contains`: the second text starts at some position of the first.
unfoldable pub contains : String → String → Bool
contains String.[] t = starts_with "" t
contains (String.◌∷◌ c s) t = let later = contains s t in starts_with (String.◌∷◌ c s) t || later

abbrev pub codes : String → List ℕ
codes String.[] = []
codes (String.◌∷◌ c s) = code c ∷ codes s

abbrev upper_code : ℕ → ℕ
upper_code c =
    if leb b'a' c && leb c b'z'
    then c - 32
    else if same_number c 0x131
    then b'I'
    else if same_number c 0x17f
    then b'S'
    else c

same_upper : String → List ℕ → Bool
same_upper String.[] [] = true
same_upper String.[] (d ∷ ds) = false
same_upper (String.◌∷◌ c s) [] = false
same_upper (String.◌∷◌ c s) (d ∷ ds) = same_number (upper_code (code c)) d && same_upper s ds

-- `strings.ToUpper(s) == t`, for a text t of ASCII; the dotless i and the long s become I and S.
unfoldable pub to_upper_is : String → String → Bool
unfolding same_upper
to_upper_is s t = same_upper s (codes t)

contains_of_starts_with : (s t : String) → starts_with s t ≡ true → contains s t ≡ true
unfolding contains
contains_of_starts_with String.[] t h = h
contains_of_starts_with (String.◌∷◌ c s) t h = rw h

-- A text contains what it begins with.
pub contains-append : (s t : String) → contains (String.◌++◌ s t) s ≡ true
contains-append s t = contains_of_starts_with (String.◌++◌ s t) s (starts_with-append s t)
