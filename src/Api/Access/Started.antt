-- ===== src/Api/Access/Started.antt =====
-- cmd/fidex-node/main.go, mustSetupServers: the configuration of a start as the internal listener's
-- gates read it.
use fidex_go_node.Common.{
  ℕ, true, none, List, [], ◌∷◌, ◌++◌, ◌≡◌, ◌≢◌, ◌↔◌, inl, inr, false, arith, refl, Option-cases,
  codes, String,
}
use fidex_go_node.Errors.{ok}
use fidex_go_node.Json.{json, array, encode_texts, decode_texts}
use fidex_go_node.Config.{Config}
use fidex_go_node.Config.Load.{Start, load}
use fidex_go_node.Config.Keys.{IsBelow, load-IsKey}
use fidex_go_node.Api.Access.Addresses.{
  Codes, parse_ip, parse_addr, parse_as, parse_cidr, parse_ipv4, parse_ipv6, octet, split_on,
  number_from, hex_prefix, groups_from, four_octets, cut, add_to_first,
}
use fidex_go_node.Api.Access.{
  proceed, api_key_gate, parse_allowed_ips, codes_of, covers, is_listed, is_ip_allowed,
}
use fidex_go_node.Api.Access.Laws.{api_key_gate_iff}

codes_filled : (s : String) → s ≢ "" → codes s ≢ []
codes_filled String.[] h = ground arith
codes_filled (String.◌∷◌ c s) h = ground arith

-- With the API key that a start has loaded, a request passes the key's check exactly when its
-- header is `Bearer ` and that key; the key is not empty, so neither a missing header nor an
-- empty token passes.
pub load-api_key_gate :
    (start : Start) (c : Config) (header : Codes)
    → IsBelow start.random
    → load start ≡ ok c
    → ((api_key_gate (codes c.internal_api_key) header ≡ proceed)
        ↔ (header ≡ codes "Bearer " ++ codes c.internal_api_key))
      × (api_key_gate (codes c.internal_api_key) [] ≢ proceed)
      × (api_key_gate (codes c.internal_api_key) (codes "Bearer ") ≢ proceed)
load-api_key_gate start c header below h =
    let (f, from, key, filled, made) = load-IsKey start c below h in
    let some_key = codes_filled c.internal_api_key filled in
    (
      api_key_gate_iff (codes c.internal_api_key) header,
      ground (arith, api_key_gate_iff (codes c.internal_api_key) []),
      ground (arith, api_key_gate_iff (codes c.internal_api_key) (codes "Bearer "), some_key),
    )

encode-decode_texts : (ts : List String) → decode_texts (encode_texts ts) ≡ (ts, true)
unfolding decode_texts encode_texts
encode-decode_texts [] = refl
encode-decode_texts (t ∷ ts) = rw (encode-decode_texts ts) refl

-- The list that the internal router is given is the configured one, entry by entry and with the
-- blanks that an entry has: AllowedIPsString prints it as JSON, and ParseAllowedIPs reads that.
configured_list :
    (input : Codes) (ips : List String)
    → parse_allowed_ips input (json (array (encode_texts ips))) ≡ ok (codes_of ips)
unfolding parse_allowed_ips
configured_list input ips = rw (encode-decode_texts ips) refl

four_octets_spaced : (parts : List Codes) → four_octets (add_to_first 32 parts) ≡ none
unfolding four_octets octet number_from
four_octets_spaced [] = refl
four_octets_spaced (a ∷ []) = refl
four_octets_spaced (a ∷ b ∷ []) = refl
four_octets_spaced (a ∷ b ∷ c ∷ []) = refl
four_octets_spaced ([] ∷ b ∷ c ∷ d ∷ []) = refl
four_octets_spaced ((x ∷ xs) ∷ b ∷ c ∷ d ∷ []) = refl
four_octets_spaced (a ∷ b ∷ c ∷ d ∷ e ∷ es) = refl

parse_ipv4_spaced : (s : Codes) → parse_ipv4 (32 ∷ s) ≡ none
unfolding parse_ipv4 split_on
parse_ipv4_spaced s = four_octets_spaced (split_on b'.' s)

parse_ipv6_spaced : (s : Codes) → parse_ipv6 (32 ∷ s) ≡ none
unfolding parse_ipv6 groups_from hex_prefix
parse_ipv6_spaced [] = refl
parse_ipv6_spaced (c ∷ s) = refl

parse_as-none :
    (all s : Codes) → parse_ipv4 all ≡ none → parse_ipv6 all ≡ none → parse_as all s ≡ none
unfolding parse_as
parse_as-none all [] four six = refl
parse_as-none all (c ∷ s) four six = ground (arith, parse_as-none all s four six)

parse_addr_spaced : (s : Codes) → parse_addr (32 ∷ s) ≡ none
unfolding parse_addr
parse_addr_spaced s = parse_as-none (32 ∷ s) (32 ∷ s) (parse_ipv4_spaced s) (parse_ipv6_spaced s)

parse_cidr_spaced : (s : Codes) → parse_cidr (32 ∷ s) ≡ none
unfolding parse_cidr cut
parse_cidr_spaced s = ground (arith, parse_addr_spaced (cut b'/' s).0, Option-cases (cut b'/' s).1)

covers_spaced : (s : Codes) (a : ℕ) → covers (32 ∷ s) a ≡ false
unfolding covers parse_ip
covers_spaced s a = ground (arith, parse_addr_spaced s, parse_cidr_spaced s)

is_listed_spaced :
    (before rest : List Codes) (s : Codes) (a : ℕ)
    → is_listed (before ++ (32 ∷ s) ∷ rest) a ≡ is_listed (before ++ rest) a
unfolding is_listed
is_listed_spaced [] rest s a = rw (covers_spaced s a) refl
is_listed_spaced (entry ∷ before) rest s a = rw (is_listed_spaced before rest s a) refl

-- An entry that begins with a blank, as the second one of `10.0.0.1, 10.0.0.2` does, admits nobody:
-- it covers no address, and the allowlist decides on every client as it does without the entry,
-- wherever in the list it stands.
pub is_ip_allowed_spaced :
    (client s : Codes) (before rest : List Codes)
    → (is_ip_allowed client (before ++ (32 ∷ s) ∷ rest) ≡ is_ip_allowed client (before ++ rest))
      × ((a : ℕ) → covers (32 ∷ s) a ≡ false)
unfolding is_ip_allowed
is_ip_allowed_spaced client s before rest = elim (Option-cases (parse_ip client)) [
  | inl bad ↦ (rw (bad, is_ip_allowed) refl, covers_spaced s)
  | inr (a, read) ↦ (rw (read, is_ip_allowed) (is_listed_spaced before rest s a), covers_spaced s)
]
