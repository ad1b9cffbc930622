-- ===== src/Crypto/Negotiate.antt =====
-- internal/crypto/as5_engine.go: the choice of a key-encryption algorithm.
use fidex_go_node.Common.{
  String, Bool, true, false, List, [], ◌∷◌, ◌==◌, ◌&&◌, ◌≡◌, ◌≢◌, ◌⊎◌, ◌↔◌, inl, inr, arith, sym,
  if◌then◌else◌, eq_iff, Bool-cases,
}
use mathlib.Core.List.{Memᴰ}
use fidex_go_node.Errors.{plain, Result, ok, err, IsErr}
use fidex_go_node.Crypto.{alg_rsa_oaep, alg_rsa_oaep_256}

unfoldable pub has : List String → String → Bool
has [] want = false
has (a ∷ list) want = let rest = has list want in if a == want then true else rest

unfoldable pub negotiate : List String → List String → Result String
unfolding has
negotiate ours [] =
    if has ours alg_rsa_oaep
    then ok alg_rsa_oaep
    else err
        (plain "peer advertised no encryption algorithms and local node does not support RSA-OAEP")
negotiate ours (alg ∷ algs) =
    let theirs = alg ∷ algs in
    if has ours alg_rsa_oaep_256 && has theirs alg_rsa_oaep_256
    then ok alg_rsa_oaep_256
    else if has ours alg_rsa_oaep && has theirs alg_rsa_oaep
    then ok alg_rsa_oaep
    else err (plain "no mutually supported encryption algorithm")

abbrev pub local_supported : List String
local_supported = alg_rsa_oaep ∷ alg_rsa_oaep_256 ∷ []

Memᴰ-nil : {a : String} → Memᴰ a [] → ⊥
Memᴰ-nil m = elim m [ ]

has_of_mem :
    (a : String) (list : List String) (want : String)
    → (Memᴰ want list → has list want ≡ true)
    → Memᴰ want (a ∷ list)
    → has (a ∷ list) want ≡ true
unfolding has
has_of_mem a list want ih (Memᴰ.head e) = ground (arith, eq_iff a want)
has_of_mem a list want ih (Memᴰ.tail m) = ground (arith, ih m)

has_iff : (list : List String) (want : String) → (has list want ≡ true) ↔ Memᴰ want list
unfolding has
has_iff [] want = (λ h. cc, λ m. absurd (Memᴰ-nil m))
has_iff (a ∷ list) want = (
  λ h. elim (Bool-cases (a == want)) [
    | inl e ↦ Memᴰ.head (sym ((eq_iff a want).0 e))
    | inr e ↦ Memᴰ.tail ((has_iff list want).0 (rw e at h))
  ],
  λ m. has_of_mem a list want (has_iff list want).1 m,
)

has_of_shared :
    (list : List String) (alg want : String) → Memᴰ alg list → alg ≡ want → has list want ≡ true
has_of_shared list alg want m e = (has_iff list want).1 (rw (← e) m)

-- What a peer can be sent: what it advertises, or RSA-OAEP if it advertises nothing.
abbrev pub Offers : List String → String → Type 0
Offers [] alg = alg ≡ alg_rsa_oaep
Offers (a ∷ algs) alg = Memᴰ alg (a ∷ algs)

-- The two algorithms of the protocol that both sides can use.
abbrev pub IsShared : List String → List String → String → Type 0
IsShared ours theirs alg =
    ((alg ≡ alg_rsa_oaep) ⊎ (alg ≡ alg_rsa_oaep_256)) × Memᴰ alg ours × Offers theirs alg

strong_ne_plain : alg_rsa_oaep_256 ≢ alg_rsa_oaep
strong_ne_plain = ground (arith, eq_iff alg_rsa_oaep_256 alg_rsa_oaep)

-- A negotiated algorithm is one of the protocol's two, the node supports it, the peer offers it,
-- and it is RSA-OAEP only where RSA-OAEP-256 is not shared.
pub negotiate_sound :
    (ours theirs : List String) (alg : String)
    → negotiate ours theirs ≡ ok alg
    → IsShared ours theirs alg
      × ((alg ≡ alg_rsa_oaep_256) ⊎ ¬ (IsShared ours theirs alg_rsa_oaep_256))
unfolding negotiate
negotiate_sound ours [] alg h = ground (arith, has_iff ours alg_rsa_oaep, strong_ne_plain)
negotiate_sound ours (a ∷ algs) alg h = ground (
  arith,
  has_iff ours alg_rsa_oaep,
  has_iff ours alg_rsa_oaep_256,
  has_iff (a ∷ algs) alg_rsa_oaep,
  has_iff (a ∷ algs) alg_rsa_oaep_256,
)

negotiate_fails :
    (ours theirs : List String) (alg : String)
    → IsErr (negotiate ours theirs)
    → IsShared ours theirs alg
    → ⊥
unfolding negotiate
negotiate_fails ours [] alg h (form, mine, offered) =
    ground (arith, has_of_shared ours alg alg_rsa_oaep mine offered)
negotiate_fails ours (a ∷ algs) alg h (form, mine, offered) = ground (
  arith,
  has_of_shared ours alg alg_rsa_oaep mine,
  has_of_shared ours alg alg_rsa_oaep_256 mine,
  has_of_shared (a ∷ algs) alg alg_rsa_oaep offered,
  has_of_shared (a ∷ algs) alg alg_rsa_oaep_256 offered,
)

negotiate-IsErr :
    (ours theirs : List String)
    → ((alg : String) → ¬ (IsShared ours theirs alg))
    → IsErr (negotiate ours theirs)
unfolding negotiate
negotiate-IsErr ours [] none_shared =
    ground (arith, has_iff ours alg_rsa_oaep, none_shared alg_rsa_oaep)
negotiate-IsErr ours (a ∷ algs) none_shared = ground (
  arith,
  has_iff ours alg_rsa_oaep,
  has_iff ours alg_rsa_oaep_256,
  has_iff (a ∷ algs) alg_rsa_oaep,
  has_iff (a ∷ algs) alg_rsa_oaep_256,
  none_shared alg_rsa_oaep,
  none_shared alg_rsa_oaep_256,
)

-- Negotiation fails exactly when the two sides share no algorithm of the protocol.
negotiate-IsErr_iff :
    (ours theirs : List String)
    → IsErr (negotiate ours theirs) ↔ ((alg : String) → ¬ (IsShared ours theirs alg))
negotiate-IsErr_iff ours theirs =
    (λ h alg. negotiate_fails ours theirs alg h, negotiate-IsErr ours theirs)
