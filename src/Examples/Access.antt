-- ===== src/Examples/Access.antt =====
-- The theorems on access control at concrete inputs.
use fidex_go_node.Common.{
  ℕ, true, false, none, some, [], ◌∷◌, ◌++◌, ◌≡◌, ◌≢◌, ◌↔◌, inl, inr, refl, arith, codes, ◌==◌,
  if◌then◌else◌,
}
use fidex_go_node.Errors.{plain, ok, err}
use fidex_go_node.Config.{Config, default_config}
use fidex_go_node.Config.Overrides.{default_flags, load_from_env, load_from_flags}
use fidex_go_node.Config.Load.{Start, load}
use fidex_go_node.Api.Access.Addresses.{
  parse_ip, parse_addr, parse_as, parse_ipv4, parse_ipv6, octet, four_octets, split_on, number_from,
  hex_prefix, groups_from, split_host_port, last_cut, has, cut, parse_cidr, contains_ip, mapped,
}
use fidex_go_node.Api.Access.{
  is_ip_allowed, is_listed, covers, ip_allowlist, proceed, trim_space, api_key_gate,
}
use fidex_go_node.Api.Access.Laws.{StandsFor, Any, is_ip_allowed_iff, forwarded_address_passes}
use fidex_go_node.Api.Access.Started.{load-api_key_gate, is_ip_allowed_spaced}

ipv6_read : parse_ip (codes "2001:db8::5:0001") ≡ some 42540766411282592856903984951654154241
unfolding parse_ip parse_addr parse_as parse_ipv6 hex_prefix groups_from
ipv6_read = refl

mixed_forms_read : parse_ip (codes "::ffff:1.2.3.4") ≡ parse_ip (codes "1.2.3.4")
unfolding parse_ip parse_addr parse_as parse_ipv4 octet split_on number_from parse_ipv6 hex_prefix
    groups_from four_octets
mixed_forms_read = refl

network_covers : is_ip_allowed (codes "10.1.2.3") (codes "::1" ∷ codes "10.0.0.0/8" ∷ []) ≡ true
unfolding parse_ip parse_addr parse_as parse_ipv4 octet split_on number_from is_ip_allowed is_listed
    covers has parse_ipv6 hex_prefix groups_from parse_cidr cut contains_ip four_octets
network_covers = refl

other_family : is_ip_allowed (codes "10.1.2.3") (codes "::/0" ∷ []) ≡ false
unfolding parse_ip parse_addr parse_as parse_ipv4 octet split_on number_from is_ip_allowed is_listed
    covers has parse_ipv6 hex_prefix groups_from parse_cidr cut contains_ip four_octets
other_family = refl

host_read : split_host_port (codes "[::1]:80") ≡ some (codes "::1")
unfolding split_host_port last_cut has cut
host_read = refl

is_ip_allowed_example : (is_ip_allowed (codes "10.1.2.3") (codes "::/0" ∷ []) ≡ true) ↔ (
    (a : ℕ) × (parse_ip (codes "10.1.2.3") ≡ some a) × Any (λ e. StandsFor e a) (codes "::/0" ∷ []))
is_ip_allowed_example = is_ip_allowed_iff (codes "10.1.2.3") (codes "::/0" ∷ [])

local_read : parse_ip (codes "127.0.0.1") ≡ some (mapped 2130706433)
unfolding parse_ip parse_addr parse_as parse_ipv4 octet split_on number_from four_octets
local_read = refl

local_trimmed : trim_space (codes "127.0.0.1") ≡ codes "127.0.0.1"
unfolding trim_space
local_trimmed = refl

local_plain : has b',' (codes "127.0.0.1") ≡ false
unfolding has
local_plain = refl

local_address : has b'/' (codes "127.0.0.1") ≡ false
unfolding has
local_address = refl

forwarded_address_example :
    (ip_allowlist (codes "127.0.0.1" ∷ []) (record {
      forwarded_for = codes "127.0.0.1";
      real_ip = [];
      remote_addr = codes "203.0.113.9:4711";
    })
      ≡ proceed)
    × (ip_allowlist (codes "127.0.0.1" ∷ []) (record {
      forwarded_for = codes "127.0.0.1" ++ b',' ∷ codes "203.0.113.9";
      real_ip = [];
      remote_addr = codes "203.0.113.9:4711";
    })
        ≡ proceed)
forwarded_address_example =
    forwarded_address_passes (codes "127.0.0.1" ∷ []) (codes "127.0.0.1") (codes "203.0.113.9") []
      (codes "203.0.113.9:4711") (mapped 2130706433) (λ h. ground (arith, h)) local_trimmed
      local_plain local_read (inl (inr (local_address, local_read)))

is_ip_allowed_spaced_example :
    (is_ip_allowed (codes "10.0.0.2") (codes "10.0.0.1" ∷ (32 ∷ codes "10.0.0.2") ∷ [])
      ≡ is_ip_allowed (codes "10.0.0.2") (codes "10.0.0.1" ∷ []))
    × ((a : ℕ) → covers (32 ∷ codes "10.0.0.2") a ≡ false)
is_ip_allowed_spaced_example =
    is_ip_allowed_spaced (codes "10.0.0.2") (codes "10.0.0.2") (codes "10.0.0.1" ∷ []) []

abbrev bare : Start
bare = record {
  flags = default_flags;
  environment = λ name. if name == "FIDEX_API_KEY" then "secret" else "";
  read = λ path. err (plain "absent");
  parse_error = plain "bad";
  random = λ i. none;
}

abbrev started : Config
started = record default_config { internal_api_key = "secret" }

bare_loads : load bare ≡ ok started
unfolding load load_from_flags load_from_env
bare_loads = refl

api_key_example :
    ((api_key_gate (codes started.internal_api_key) (codes "Bearer guess") ≡ proceed)
      ↔ (codes "Bearer guess" ≡ codes "Bearer " ++ codes started.internal_api_key))
    × (api_key_gate (codes started.internal_api_key) [] ≢ proceed)
    × (api_key_gate (codes started.internal_api_key) (codes "Bearer ") ≢ proceed)
api_key_example =
    load-api_key_gate bare started (codes "Bearer guess") (λ i r h. ground arith) bare_loads
