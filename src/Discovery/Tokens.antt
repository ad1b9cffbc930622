-- ===== src/Discovery/Tokens.antt =====
-- internal/discovery/tokens.go: the store of single-use tokens. The map is a table keyed by the
-- token, and its lock makes each operation one step. `createdAt` is never read. What crypto/rand
-- and base64 make of a token is an argument.
pub mod SingleUse
use fidex_go_node.Common.{
  ℕ, ◌+◌, ◌≤◌, String, Bool, true, false, Option, none, some, List, [], ◌∷◌, ◌++◌, ◌≡◌, ◌≢◌, ◌==◌,
  ◌↔◌, ◌||◌, arith, refl, eq_iff, eq_refl, ltb, not, if◌then◌else◌, select, inl, inr, Option-cases,
}
use fidex_go_node.Errors.{Result, ok, err, context}
use fidex_go_node.Store.Table.{find_row, update_rows, delete_rows}
use fidex_go_node.Store.Table.Laws.{find_row-update_rows, find_row-delete_rows}

pub record Token : Type 0 where
  pub token : String
  pub expires_at : ℕ
  pub used : Bool

abbrev pub key_of : Token → String
key_of t = t.token

abbrev pub TokenStore : Type 0
TokenStore = List Token

abbrev pub spend : Token → Token
spend t = record t { used = true }

-- GenerateToken at the instant `now`; a map assignment replaces what stood at the key.
unfoldable pub generate_token : ℕ → ℕ → Result String → TokenStore → TokenStore × Result String
generate_token now expires_in made ts = elim made [
  | err e ↦ (ts, err (context "failed to generate random token" e))
  | ok token ↦ (
    delete_rows key_of token ts
        ++ record { token = token; expires_at = now + expires_in; used = false } ∷ [],
    ok token,
  )
]

unfoldable pub validate_and_consume : ℕ → TokenStore → String → TokenStore × Bool
validate_and_consume now ts token = elim (find_row key_of token ts) [
  | none ↦ (ts, false)
  | some t ↦
      if ltb t.expires_at now
      then (delete_rows key_of token ts, false)
      else if t.used
      then (ts, false)
      else (update_rows key_of token spend ts, true)
]

-- A round of cleanupExpiredTokens.
unfoldable pub cleanup_expired_tokens : ℕ → TokenStore → TokenStore
cleanup_expired_tokens now ts = select (λ t. not (ltb t.expires_at now || t.used)) ts

-- The store without order: what it says of one token.
abbrev pub view : TokenStore → String → Option Token
view ts token = find_row key_of token ts

-- A token is accepted exactly when the store has it, not used and not past its expiry.
pub validate_iff :
    (now : ℕ) (ts : TokenStore) (token : String)
    → ((validate_and_consume now ts token).1 ≡ true)
      ↔ ((t : Token) × (view ts token ≡ some t) × (t.used ≡ false) × (now ≤ t.expires_at))
unfolding validate_and_consume
validate_iff now ts token = (
  λ h. elim (Option-cases (find_row key_of token ts)) [
    | inl missing ↦ ground arith
    | inr (t, found) ↦ (t, found, ground arith, ground arith)
  ],
  λ (t, found, unused, live). ground arith,
)

view-validate :
    (now : ℕ) (ts : TokenStore) (token other : String)
    → view (validate_and_consume now ts token).0 other ≡ (
        if token == other
        then elim (view ts token) [
          | none ↦ none
          | some t ↦ if ltb t.expires_at now then none else some (spend t)
        ]
        else view ts other)
unfolding validate_and_consume
view-validate now ts token other = ground (
  arith,
  eq_iff token other,
  find_row-delete_rows key_of token other ts,
  find_row-update_rows key_of token other spend (λ t. refl) ts,
)

-- A token that was presented once is refused from then on.
pub validate_twice :
    (now later : ℕ) (ts : TokenStore) (token : String)
    → (validate_and_consume later (validate_and_consume now ts token).0 token).1 ≡ false
unfolding validate_and_consume
validate_twice now later ts token = ground (
  arith,
  find_row-delete_rows key_of token token ts,
  find_row-update_rows key_of token token spend (λ t. refl) ts,
  eq_refl token,
)
