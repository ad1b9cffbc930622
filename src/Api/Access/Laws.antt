-- ===== src/Api/Access/Laws.antt =====
-- middleware.go: who passes the allowlist and the API key.
use Prim.Native.Nat.{◌/◌}
use native.Mathlib.Nat.{div-mul-le_self, le-div_iff_mul-le, div-lt_iff_lt-mul, one-le-pow}
use fidex_go_node.Common.{
  ℕ, ◌+◌, ◌*◌, ◌^◌, ◌≤◌, ◌<◌, true, false, none, some, List, [], ◌∷◌, ◌++◌, ◌≡◌, ◌≢◌, ◌↔◌, ◌⊎◌, ◌∙◌,
  ap, inl, inr, arith, refl, sym, Bool-cases, Option-cases, codes,
}
use fidex_go_node.Api.Access.Addresses.{
  Codes, Network, parse_ip, parse_cidr, contains_ip, is_mapped, has, cut,
}
use fidex_go_node.Api.Access.{
  Request, client_of, get_client_ip, covers, is_listed, is_ip_allowed, proceed, ip_allowlist,
  trim_space, strip_prefix, same_codes, api_key_gate,
}

-- An address lies in a network: in the interval of its prefix, and of the same family.
pub record LiesIn (n : Network) (a : ℕ) : Type 0 where
  pub family : is_mapped a ≡ is_mapped n.base
  pub first : n.base / 2 ^ n.host_bits * 2 ^ n.host_bits ≤ a
  pub last : a < (n.base / 2 ^ n.host_bits + 1) * 2 ^ n.host_bits

-- What an entry of the list stands for.
abbrev pub StandsFor : Codes → ℕ → Type 0
StandsFor entry a =
    ((has b'/' entry ≡ true) × ((n : Network) × (parse_cidr entry ≡ some n) × LiesIn n a))
    ⊎ ((has b'/' entry ≡ false) × (parse_ip entry ≡ some a))

abbrev pub Any : (Codes → Type 0) → List Codes → Type 0
Any P [] = ⊥
Any P (x ∷ xs) = P x ⊎ Any P xs

same_quotient : (a b k : ℕ) → 0 < k → (a / k ≡ b) ↔ ((b * k ≤ a) × (a < (b + 1) * k))
same_quotient a b k positive = (
  λ h.
      (rw (sym h) (div-mul-le_self a k), rw (sym h) ((div-lt_iff_lt-mul positive).0 (omega arith))),
  λ (low, high).
      let least : b ≤ a / k = (le-div_iff_mul-le positive).1 low in
      let most : a / k < b + 1 = (div-lt_iff_lt-mul positive).1 high in omega (arith, least, most),
)

power_positive : (n : ℕ) → 0 < 2 ^ n
power_positive n = one-le-pow n 2 (omega arith)

contains_ip_iff : (n : Network) (a : ℕ) → (contains_ip n a ≡ true) ↔ LiesIn n a
unfolding contains_ip
contains_ip_iff n a =
    let q =
      same_quotient a (n.base / 2 ^ n.host_bits) (2 ^ n.host_bits) (power_positive n.host_bits) in
    (
      λ h. record { family = ground arith; first = ground (arith, q); last = ground (arith, q) },
      λ l.
          let f = l.family in
          let low = l.first in let high = l.last in ground (arith, q, Bool-cases (is_mapped a)),
    )

covers_iff : (entry : Codes) (a : ℕ) → (covers entry a ≡ true) ↔ StandsFor entry a
unfolding covers
covers_iff entry a = elim (Bool-cases (has b'/' entry)) [
  | inl net ↦ elim (Option-cases (parse_cidr entry)) [
    | inl bad ↦ ground (arith, net, bad)
    | inr (n, read) ↦ (
      λ h. inl (net, (n, read, (contains_ip_iff n a).0 (ground (arith, h, net, read)))),
      λ h. elim h [
        | inr (plain, _) ↦ ground (arith, net, plain)
        | inl (_, (m, again, lies)) ↦ ground (arith, net, read, again, (contains_ip_iff m a).1 lies)
      ],
    )
  ]
  | inr plain ↦ elim (Option-cases (parse_ip entry)) [
    | inl bad ↦ ground (arith, plain, bad)
    | inr (b, read) ↦ ground (arith, plain, read)
  ]
]

is_listed_iff :
    (entries : List Codes) (a : ℕ) → (is_listed entries a ≡ true) ↔ Any (λ e. StandsFor e a) entries
unfolding is_listed
is_listed_iff [] a = ground arith
is_listed_iff (e ∷ es) a =
    let here = covers_iff e a in
    let there = is_listed_iff es a in
    elim (Bool-cases (covers e a)) [
      | inl yes_here ↦ (λ h. inl (here.0 yes_here), λ h. rw yes_here refl)
      | inr not_here ↦ (
        λ h. inr (there.0 (rw not_here at h)),
        λ h. elim h [
          | inl s ↦ ground (arith, not_here, here.1 s)
          | inr s ↦ rw not_here (there.1 s)
        ],
      )
    ]

-- A client is allowed exactly when its text is an IP address and some entry of the list stands for
-- that address: the entry is an address and equal to it, or it is a network in CIDR notation
-- and the address is in the interval of its prefix and of the same family, IPv4 or IPv6. An
-- entry that cannot be parsed stands for none.
pub is_ip_allowed_iff :
    (client : Codes) (entries : List Codes)
    → (is_ip_allowed client entries ≡ true)
      ↔ ((a : ℕ) × (parse_ip client ≡ some a) × Any (λ e. StandsFor e a) entries)
unfolding is_ip_allowed
is_ip_allowed_iff client entries = elim (Option-cases (parse_ip client)) [
  | inl bad ↦ (λ h. ground (arith, h, bad), λ (a, read, any). ground (arith, read, bad))
  | inr (a, read) ↦ (
    λ h. (a, read, (is_listed_iff entries a).0 (rw (read, is_ip_allowed) at h)),
    λ (b, again, any). rw (again, is_ip_allowed) ((is_listed_iff entries b).1 any),
  )
]

cut_whole : (c : ℕ) (s : Codes) → has c s ≡ false → cut c s ≡ (s, none)
unfolding cut has
cut_whole c [] h = refl
cut_whole c (x ∷ xs) h = ground (arith, cut_whole c xs)

cut-append : (c : ℕ) (s t : Codes) → has c s ≡ false → cut c (s ++ c ∷ t) ≡ (s, some t)
unfolding cut has
cut-append c [] t h = ground arith
cut-append c (x ∷ xs) t h = ground (arith, cut-append c xs t)

client_of_filled :
    (header real connection : Codes)
    → header ≢ []
    → client_of header real connection ≡ trim_space (cut b',' header).0
client_of_filled [] real connection h = ground arith
client_of_filled (c ∷ cs) real connection h = refl

append_filled : (s t : Codes) → s ≢ [] → s ++ t ≢ []
append_filled [] t h = ground arith
append_filled (c ∷ cs) t h = ground arith

module _ (entry real_ip connection : Codes) (filled : entry ≢ [])
    (trimmed : trim_space entry ≡ entry) (plain : has b',' entry ≡ false) where
  abbrev claiming : Codes → Request
  claiming header = record { forwarded_for = header; real_ip = real_ip; remote_addr = connection }

  client_alone : get_client_ip (claiming entry) ≡ entry
  unfolding get_client_ip
  client_alone =
      client_of_filled entry real_ip connection filled
      ∙ ap (λ parts. trim_space parts.0) (cut_whole b',' entry plain)
      ∙ trimmed

  client_first : (more : Codes) → get_client_ip (claiming (entry ++ b',' ∷ more)) ≡ entry
  unfolding get_client_ip
  client_first more =
      client_of_filled (entry ++ b',' ∷ more) real_ip connection (append_filled entry _ filled)
      ∙ ap (λ parts. trim_space parts.0) (cut-append b',' entry more plain)
      ∙ trimmed

-- The allowlist believes the header: whatever the address of the connection, a request that names
-- a listed address in X-Forwarded-For, as the whole header or before its first comma, passes.
pub forwarded_address_passes :
    (entries : List Codes) (entry more real_ip connection : Codes) (a : ℕ)
    → entry ≢ []
    → trim_space entry ≡ entry
    → has b',' entry ≡ false
    → parse_ip entry ≡ some a
    → Any (λ e. StandsFor e a) entries
    → let claim : Codes → Request =
        λ header. record { forwarded_for = header; real_ip = real_ip; remote_addr = connection } in
      (ip_allowlist entries (claim entry) ≡ proceed)
      × (ip_allowlist entries (claim (entry ++ b',' ∷ more)) ≡ proceed)
unfolding ip_allowlist
forwarded_address_passes entries entry more real_ip connection a filled trimmed plain read listed =
    let allowed = (is_ip_allowed_iff entry entries).1 (a, read, listed) in
    (
      rw (client_alone entry real_ip connection filled trimmed plain, allowed) refl,
      rw (client_first entry real_ip connection filled trimmed plain more, allowed) refl,
    )

same_codes_iff : (s t : Codes) → (same_codes s t ≡ true) ↔ (s ≡ t)
unfolding same_codes
same_codes_iff [] [] = ground arith
same_codes_iff [] (d ∷ ds) = ground arith
same_codes_iff (c ∷ cs) [] = ground arith
same_codes_iff (c ∷ cs) (d ∷ ds) = ground (arith, same_codes_iff cs ds)

strip_prefix_iff : (p s t : Codes) → (strip_prefix p s ≡ some t) ↔ (s ≡ p ++ t)
unfolding strip_prefix
strip_prefix_iff [] s t = ground arith
strip_prefix_iff (c ∷ p) [] t = ground arith
strip_prefix_iff (c ∷ p) (d ∷ s) t = ground (arith, strip_prefix_iff p s t)

-- A request passes the API key check exactly when its Authorization header is `Bearer ` and the
-- expected key after it.
pub api_key_gate_iff :
    (expected header : Codes)
    → (api_key_gate expected header ≡ proceed) ↔ (header ≡ codes "Bearer " ++ expected)
unfolding api_key_gate
api_key_gate_iff expected [] = ground arith
api_key_gate_iff expected (c ∷ cs) = elim (Option-cases (strip_prefix (codes "Bearer ") (c ∷ cs))) [
  | inl none_there ↦
      ground (arith, none_there, strip_prefix_iff (codes "Bearer ") (c ∷ cs) expected)
  | inr (token, stripped) ↦ ground (
    arith,
    stripped,
    strip_prefix_iff (codes "Bearer ") (c ∷ cs) token,
    strip_prefix_iff (codes "Bearer ") (c ∷ cs) expected,
    same_codes_iff token expected,
  )
]
