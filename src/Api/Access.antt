-- ===== src/Api/Access.antt =====
-- internal/api/middleware.go: who may use the internal listener. A text is the list of its
-- characters' codes.
pub mod Addresses
pub mod Laws
pub mod Started
use fidex_go_node.Common.{
  ℕ, Bool, true, false, Option, none, some, List, [], ◌∷◌, ◌++◌, ◌&&◌, ◌||◌, not, String,
  same_number, leb, if◌then◌else◌, ◌==◌, codes,
}
use fidex_go_node.Errors.{plain, Result, ok, err}
use fidex_go_node.Json.{Json, array, Body, json, decode_texts}
use fidex_go_node.Api.{Reply, respond_with_error}
use fidex_go_node.Api.Access.Addresses.{
  Codes, cut, has, split_on, parse_ip, parse_cidr, contains_ip, split_host_port,
}

-- unicode.IsSpace
abbrev is_space : ℕ → Bool
is_space c =
    leb 9 c && leb c 13
    || same_number c 32
    || same_number c 0x85
    || same_number c 0xa0
    || same_number c 0x1680
    || leb 0x2000 c && leb c 0x200a
    || same_number c 0x2028
    || same_number c 0x2029
    || same_number c 0x202f
    || same_number c 0x205f
    || same_number c 0x3000

trim_left : Codes → Codes
trim_left [] = []
trim_left (c ∷ cs) = let rest = trim_left cs in if is_space c then rest else c ∷ cs

trim_right : Codes → Codes
trim_right [] = []
trim_right (c ∷ cs) = elim (trim_right cs) [
  | [] ↦ if is_space c then [] else c ∷ []
  | d ∷ ds ↦ c ∷ d ∷ ds
]

-- strings.TrimSpace
unfoldable pub trim_space : Codes → Codes
unfolding trim_left trim_right
trim_space s = trim_right (trim_left s)

-- The headers that are read, each empty when it is missing, and the address of the connection.
pub record Request : Type 0 where
  pub forwarded_for : Codes
  pub real_ip : Codes
  pub remote_addr : Codes

abbrev or_whole : Codes → Option Codes → Codes
or_whole whole none = whole
or_whole whole (some host) = host

abbrev pub client_of : Codes → Codes → Codes → Codes
client_of [] [] addr = or_whole addr (split_host_port addr)
client_of [] (c ∷ cs) addr = c ∷ cs
client_of (c ∷ cs) real addr = trim_space (cut b',' (c ∷ cs)).0

-- getClientIP: strings.Split gives at least one part.
unfoldable pub get_client_ip : Request → Codes
get_client_ip r = client_of r.forwarded_for r.real_ip r.remote_addr

abbrev covers_network : Codes → ℕ → Bool
covers_network entry a = elim (parse_cidr entry) [ none ↦ false | some n ↦ contains_ip n a ]

abbrev covers_address : Codes → ℕ → Bool
covers_address entry a = elim (parse_ip entry) [ none ↦ false | some b ↦ same_number a b ]

-- One turn of the loop; an entry that cannot be parsed is passed over.
unfoldable pub covers : Codes → ℕ → Bool
covers entry a = if has b'/' entry then covers_network entry a else covers_address entry a

unfoldable pub is_listed : List Codes → ℕ → Bool
is_listed [] a = false
is_listed (entry ∷ entries) a = covers entry a || is_listed entries a

-- isIPAllowed
unfoldable pub is_ip_allowed : Codes → List Codes → Bool
is_ip_allowed client allowed = elim (parse_ip client) [
  | none ↦ false
  | some a ↦ is_listed allowed a
]

-- What a middleware does with a request: a response, or the next handler.
pub data Gate : Type 0 where
  refuse : Reply → Gate
  proceed : Gate

-- IPAllowlistMiddleware
unfoldable pub ip_allowlist : List Codes → Request → Gate
ip_allowlist allowed r =
    if is_ip_allowed (get_client_ip r) allowed
    then proceed
    else refuse (respond_with_error 403 "Access denied" (plain "IP address not authorized"))

-- The line of SetupInternalRouter that applies it: not at all when the list is empty.
unfoldable internal_gate : Bool → List Codes → Request → Gate
internal_gate enabled [] r = proceed
internal_gate enabled (entry ∷ entries) r =
    if enabled then ip_allowlist (entry ∷ entries) r else proceed

abbrev unauthorized : String → Gate
unauthorized why = refuse (respond_with_error 401 "Unauthorized" (plain why))

-- strings.HasPrefix and TrimPrefix: what stands after the prefix.
unfoldable pub strip_prefix : Codes → Codes → Option Codes
strip_prefix [] s = some s
strip_prefix (p ∷ ps) [] = none
strip_prefix (p ∷ ps) (c ∷ cs) =
    let rest = strip_prefix ps cs in if same_number p c then rest else none

unfoldable pub same_codes : Codes → Codes → Bool
same_codes [] [] = true
same_codes [] (d ∷ ds) = false
same_codes (c ∷ cs) [] = false
same_codes (c ∷ cs) (d ∷ ds) = same_number c d && same_codes cs ds

abbrev key_gate : Codes → Option Codes → Gate
key_gate expected none = unauthorized "invalid authorization format"
key_gate expected (some token) =
    if same_codes token expected then proceed else unauthorized "invalid API key"

-- APIKeyMiddleware, of the Authorization header.
unfoldable pub api_key_gate : Codes → Codes → Gate
api_key_gate expected [] = unauthorized "missing authorization header"
api_key_gate expected (c ∷ cs) = key_gate expected (strip_prefix (codes "Bearer ") (c ∷ cs))

-- The parts of a comma-separated text that are not blank.
abbrev filled_parts : List Codes → List Codes
filled_parts [] = []
filled_parts (p ∷ ps) =
    let rest = filled_parts ps in elim (trim_space p) [ [] ↦ rest | c ∷ cs ↦ (c ∷ cs) ∷ rest ]

abbrev pub codes_of : List String → List Codes
codes_of [] = []
codes_of (t ∷ ts) = codes t ∷ codes_of ts

-- What json.Unmarshal leaves in the []string, and whether its error is nil.
abbrev unmarshalled : Body → List Codes × Bool
unmarshalled (json Json.null) = ([], true)
unmarshalled (json (array items)) = (let (ts, fits) = decode_texts items in (codes_of ts, fits))
unmarshalled _ = ([], false)

abbrev unless_none : List Codes → Codes → Result (List Codes)
unless_none (ip ∷ ips) input = ok (ip ∷ ips)
unless_none [] [] = ok []
unless_none [] (c ∷ cs) = err (plain "failed to parse allowed IPs: invalid format")

-- ParseAllowedIPs, of a text and of what encoding/json makes of it; texts that were decoded before
-- an error stay in the list.
unfoldable pub parse_allowed_ips : Codes → Body → Result (List Codes)
parse_allowed_ips input parsed =
    let (ips, fits) = unmarshalled parsed in
    if fits then ok ips else unless_none (ips ++ filled_parts (split_on b',' input)) input
