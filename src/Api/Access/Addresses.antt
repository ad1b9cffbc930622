-- ===== src/Api/Access/Addresses.antt =====
-- What internal/api/middleware.go uses of package net: ParseIP, ParseCIDR, IPNet.Contains, IP.Equal and
-- SplitHostPort. A text is the list of its characters' codes. An address is its 128 bits as a number,
-- an IPv4 address in its IPv4-mapped form.
use Prim.Native.Nat.{◌/◌, ◌%◌}
use fidex_go_node.Common.{
  ℕ, zero, suc, ◌+◌, ◌-◌, ◌*◌, ◌^◌, Bool, true, false, Option, none, some, List, [], ◌∷◌, ◌++◌,
  ◌&&◌, ◌||◌, not, same_number, ltb, leb, if◌then◌else◌, length, take, drop,
}

abbrev pub Codes : Type 0
Codes = List ℕ

-- strings.Cut: what stands before the first separator, and after it if there is one.
unfoldable pub cut : ℕ → Codes → Codes × Option Codes
cut c [] = ([], none)
cut c (x ∷ xs) =
    let (before, after) = cut c xs in if same_number x c then ([], some xs) else (x ∷ before, after)

-- The same at the last separator.
unfoldable pub last_cut : ℕ → Codes → Option (Codes × Codes)
last_cut c [] = none
last_cut c (x ∷ xs) = elim (last_cut c xs) [
  | some (before, after) ↦ some (x ∷ before, after)
  | none ↦ if same_number x c then some ([], xs) else none
]

unfoldable pub has : ℕ → Codes → Bool
has c [] = false
has c (x ∷ xs) = same_number x c || has c xs

abbrev pub add_to_first : ℕ → List Codes → List Codes
add_to_first x [] = []
add_to_first x (t ∷ ts) = (x ∷ t) ∷ ts

-- strings.Split
unfoldable pub split_on : ℕ → Codes → List Codes
split_on c [] = [] ∷ []
split_on c (x ∷ xs) =
    let rest = split_on c xs in if same_number x c then [] ∷ rest else add_to_first x rest

abbrev is_digit : ℕ → Bool
is_digit c = leb b'0' c && leb c b'9'

unfoldable pub number_from : ℕ → Codes → Option ℕ
number_from n [] = some n
number_from n (c ∷ cs) =
    let rest = number_from (n * 10 + (c - b'0')) cs in if is_digit c then rest else none

abbrev up_to : ℕ → Option ℕ → Option ℕ
up_to most none = none
up_to most (some n) = if leb n most then some n else none

-- An octet has no leading zero.
unfoldable pub octet : Codes → Option ℕ
octet [] = none
octet (c ∷ []) = number_from 0 (c ∷ [])
octet (c ∷ d ∷ cs) = if same_number c b'0' then none else up_to 255 (number_from 0 (c ∷ d ∷ cs))

abbrev join_octets : Option ℕ → Option ℕ → Option ℕ
join_octets (some a) (some b) = some (a * 256 + b)
join_octets _ _ = none

unfoldable pub four_octets : List Codes → Option ℕ
four_octets (a ∷ b ∷ c ∷ d ∷ []) =
    join_octets (join_octets (join_octets (octet a) (octet b)) (octet c)) (octet d)
four_octets _ = none

unfoldable pub parse_ipv4 : Codes → Option ℕ
unfolding four_octets
parse_ipv4 cs = four_octets (split_on b'.' cs)

abbrev hex_value : ℕ → Option ℕ
hex_value c =
    if is_digit c
    then some (c - b'0')
    else if leb b'a' c && leb c b'f'
    then some (c - b'a' + 10)
    else if leb b'A' c && leb c b'F'
    then some (c - b'A' + 10)
    else none

-- The hexadecimal digits that a text begins with: their number, their value, and the rest.
unfoldable pub hex_prefix : ℕ → Codes → ℕ × ℕ × Codes
hex_prefix n [] = (0, n, [])
hex_prefix n (c ∷ cs) = elim (hex_value c) [
  | none ↦ (0, n, c ∷ cs)
  | some v ↦ (let (count, value, rest) = hex_prefix (n * 16 + v) cs in (suc count, value, rest))
]

abbrev zeros : ℕ → List ℕ
zeros zero = []
zeros (suc n) = 0 ∷ zeros n

abbrev join_groups : ℕ → List ℕ → ℕ
join_groups n [] = n
join_groups n (g ∷ gs) = join_groups (n * 65536 + g) gs

-- The end of parseIPv6: an ellipsis stands for one group of zeros or more.
abbrev expand : List ℕ → Option ℕ → Option ℕ
expand groups none = if same_number (length groups) 8 then some (join_groups 0 groups) else none
expand groups (some at) =
    if ltb (length groups) 8
    then some (join_groups 0 (take at groups ++ zeros (8 - length groups) ++ drop at groups))
    else none

-- The trailing IPv4 address of an IPv6 one.
abbrev embedded : List ℕ → Option ℕ → Option ℕ → Option ℕ
embedded groups ellipsis none = none
embedded groups ellipsis (some v) = expand (groups ++ v / 65536 ∷ v % 65536 ∷ []) ellipsis

abbrev fits_embedded : ℕ → Option ℕ → Bool
fits_embedded n none = same_number n 6
fits_embedded n (some at) = leb n 6

-- What follows a group: the end of the address, or another group.
pub data Next : Type 0 where
  finished : Option ℕ → Next
  more : Option ℕ → Codes → Next

abbrev after_ellipsis : List ℕ → Codes → Next
after_ellipsis groups [] = finished (expand groups (some (length groups)))
after_ellipsis groups (c ∷ cs) = more (some (length groups)) (c ∷ cs)

abbrev after_colon : List ℕ → Option ℕ → Codes → Next
after_colon groups ellipsis [] = finished none
after_colon groups ellipsis (d ∷ cs) =
    if same_number d b':'
    then elim ellipsis [ none ↦ after_ellipsis groups cs | some at ↦ finished none ]
    else more ellipsis (d ∷ cs)

abbrev after_group : List ℕ → Option ℕ → Codes → Next
after_group groups ellipsis [] = finished (expand groups ellipsis)
after_group groups ellipsis (c ∷ cs) =
    if same_number c b':' then after_colon groups ellipsis cs else finished none

abbrev at_dot : Codes → Bool
at_dot [] = false
at_dot (c ∷ cs) = same_number c b'.'

abbrev go_on : Next → (Option ℕ → Codes → Option ℕ) → Option ℕ
go_on (finished o) k = o
go_on (more ellipsis s) k = k ellipsis s

-- The loop of parseIPv6 at the start of a group; at most `left` groups may still come.
unfoldable pub groups_from : ℕ → List ℕ → Option ℕ → Codes → Option ℕ
groups_from zero groups ellipsis s = none
groups_from (suc left) groups ellipsis s =
    let (count, value, rest) = hex_prefix 0 s in
    let later = groups_from left (groups ++ value ∷ []) in
    if same_number count 0 || ltb 4 count
    then none
    else if at_dot rest
    then (if fits_embedded (length groups) ellipsis
        then embedded groups ellipsis (parse_ipv4 s)
        else none)
    else go_on (after_group (groups ++ value ∷ []) ellipsis rest) later

abbrev from_start : Next → Option ℕ
from_start n = go_on n (groups_from 8 [])

unfoldable pub parse_ipv6 : Codes → Option ℕ
parse_ipv6 [] = none
parse_ipv6 (c ∷ []) = groups_from 8 [] none (c ∷ [])
parse_ipv6 (c ∷ d ∷ cs) =
    if same_number c b':' && same_number d b':'
    then from_start (after_ellipsis [] cs)
    else groups_from 8 [] none (c ∷ d ∷ cs)

-- An IPv4 address in its IPv4-mapped form, and the test for one.
abbrev pub mapped : ℕ → ℕ
mapped v = 0xffff * 2 ^ 32 + v

abbrev pub is_mapped : ℕ → Bool
is_mapped a = same_number (a / 2 ^ 32) 0xffff

-- An address, and whether its text is that of an IPv4 address.
abbrev as_ipv4 : Option ℕ → Option (ℕ × Bool)
as_ipv4 none = none
as_ipv4 (some v) = some (mapped v, true)

abbrev as_ipv6 : Option ℕ → Option (ℕ × Bool)
as_ipv6 none = none
as_ipv6 (some a) = some (a, false)

-- The first `.` or `:` of the text tells the form; a zone is refused.
unfoldable pub parse_as : Codes → Codes → Option (ℕ × Bool)
parse_as all [] = none
parse_as all (c ∷ cs) =
    let later = parse_as all cs in
    if same_number c b'.'
    then as_ipv4 (parse_ipv4 all)
    else if same_number c b':'
    then as_ipv6 (parse_ipv6 all)
    else later

unfoldable pub parse_addr : Codes → Option (ℕ × Bool)
unfolding parse_as
parse_addr s = parse_as s s

-- net.ParseIP
unfoldable pub parse_ip : Codes → Option ℕ
parse_ip s = elim (parse_addr s) [ none ↦ none | some (a, v4) ↦ some a ]

-- A network: its first address, and how many of the 128 bits are not of its prefix.
pub record Network : Type 0 where
  pub base : ℕ
  pub host_bits : ℕ

abbrev prefix_of : Codes → Option ℕ
prefix_of [] = none
prefix_of (c ∷ cs) = number_from 0 (c ∷ cs)

abbrev masked : ℕ → ℕ → Network
masked a bits = record { base = a / 2 ^ bits * 2 ^ bits; host_bits = bits }

abbrev network_of : Option (ℕ × Bool) → Option ℕ → Option Network
network_of (some (a, true)) (some n) = if leb n 32 then some (masked a (32 - n)) else none
network_of (some (a, false)) (some n) = if leb n 128 then some (masked a (128 - n)) else none
network_of _ _ = none

-- net.ParseCIDR
unfoldable pub parse_cidr : Codes → Option Network
parse_cidr s =
    let (before, after) = cut b'/' s in
    elim after [ none ↦ none | some mask ↦ network_of (parse_addr before) (prefix_of mask) ]

-- IPNet.Contains: an IPv4 address is in no other network than one of IPv4 addresses.
unfoldable pub contains_ip : Network → ℕ → Bool
contains_ip n a =
    not (is_mapped n.base)
      && not (is_mapped a)
      && same_number (a / 2 ^ n.host_bits) (n.base / 2 ^ n.host_bits)
    || is_mapped n.base
      && is_mapped a
      && same_number (a / 2 ^ n.host_bits) (n.base / 2 ^ n.host_bits)

abbrev bracket_host : Codes × Option Codes → Codes → Option Codes
bracket_host (host, some []) port =
    if has b'[' (host ++ port) || has b']' port then none else some host
bracket_host _ port = none

abbrev plain_host : Codes → Codes → Option Codes
plain_host before port =
    if has b':' before || has b'[' (before ++ port) || has b']' (before ++ port)
    then none
    else some before

abbrev host_of : Codes → Codes → Option Codes
host_of [] port = plain_host [] port
host_of (c ∷ cs) port =
    if same_number c b'[' then bracket_host (cut b']' cs) port else plain_host (c ∷ cs) port

-- The host of net.SplitHostPort.
unfoldable pub split_host_port : Codes → Option Codes
split_host_port s = elim (last_cut b':' s) [
  | none ↦ none
  | some (before, port) ↦ host_of before port
]
