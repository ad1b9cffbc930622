-- ===== src/Discovery/Tokens/SingleUse.antt =====
-- internal/discovery/tokens.go: every interleaving of the calls that the handlers, the handshakes
-- and the cleanup goroutine make of one store, as a list of calls.
use fidex_go_node.Common.{
  ℕ, ◌+◌, ◌≤◌, String, false, Option, none, some, List, [], ◌∷◌, ◌==◌, ◌&&◌, arith, refl, eq_iff,
  eq_refl, ltb, not, if◌then◌else◌, ◌||◌,
}
use fidex_go_node.Errors.{Result, ok, err}
use fidex_go_node.Store.Table.{find_row, delete_rows}
use fidex_go_node.Store.Table.Laws.{
  AreDistinct, find_row-insert, find_row-delete_rows, find_row-update_rows, find_row-IsFresh,
  find_row-select, select-AreDistinct, AreDistinct-append, update_rows-AreDistinct,
  delete_rows-AreDistinct,
}
use fidex_go_node.Discovery.Tokens.{
  Token, TokenStore, key_of, spend, generate_token, validate_and_consume, cleanup_expired_tokens,
  view,
}

pub data Call : Type 0 where
  generate : (now expires_in : ℕ) → Result String → Call
  validate : (now : ℕ) → String → Call
  cleanup : (now : ℕ) → Call

abbrev pub step : Call → TokenStore → TokenStore
step (generate now expires_in made) ts = (generate_token now expires_in made ts).0
step (validate now token) ts = (validate_and_consume now ts token).0
step (cleanup now) ts = cleanup_expired_tokens now ts

module _ (token : String) where
  -- One for a call that accepts the token, and one for a call that issues it.
  abbrev pub accepts : Call → TokenStore → ℕ
  accepts (validate now t) ts = if t == token && (validate_and_consume now ts t).1 then 1 else 0
  accepts _ ts = 0

  abbrev issues : Call → ℕ
  issues (generate now expires_in (ok t)) = if t == token then 1 else 0
  issues _ = 0

  abbrev pub accepted : List Call → TokenStore → ℕ
  accepted [] ts = 0
  accepted (c ∷ cs) ts = accepts c ts + accepted cs (step c ts)

  abbrev pub issued : List Call → ℕ
  issued [] = 0
  issued (c ∷ cs) = issues c + issued cs

  abbrev unused : Option Token → ℕ
  unused none = 0
  unused (some t) = if t.used then 0 else 1

step-AreDistinct :
    (c : Call) (ts : TokenStore) → AreDistinct key_of ts → AreDistinct key_of (step c ts)
unfolding generate_token validate_and_consume cleanup_expired_tokens
step-AreDistinct (generate now expires_in (err e)) ts d = d
step-AreDistinct (generate now expires_in (ok t)) ts d =
    AreDistinct-append key_of (delete_rows key_of t ts) _ (delete_rows-AreDistinct key_of t ts d) (
      find_row-IsFresh key_of t (delete_rows key_of t ts)
        (rw (find_row-delete_rows key_of t t ts, eq_refl t) refl))
step-AreDistinct (validate now t) ts d = ground (
  arith,
  delete_rows-AreDistinct key_of t ts d,
  update_rows-AreDistinct key_of t spend (λ x. refl) ts d,
)
step-AreDistinct (cleanup now) ts d =
    select-AreDistinct key_of (λ t. not (ltb t.expires_at now || t.used)) ts d

-- A call accepts a token only by using up an issue of it.
step_balance :
    (token : String) (c : Call) (ts : TokenStore)
    → AreDistinct key_of ts
    → accepts token c ts + unused token (view (step c ts) token)
      ≤ unused token (view ts token) + issues token c
unfolding generate_token validate_and_consume cleanup_expired_tokens
step_balance token (generate now expires_in (err e)) ts d = omega arith
step_balance token (generate now expires_in (ok t)) ts d =
    let made : Token = record { token = t; expires_at = now + expires_in; used = false } in
    ground (
      arith,
      eq_refl t,
      find_row-delete_rows key_of t t ts,
      find_row-delete_rows key_of t token ts,
      find_row-insert key_of token (delete_rows key_of t ts) made,
    )
step_balance token (validate now t) ts d = ground (
  arith,
  eq_iff t token,
  find_row-delete_rows key_of t token ts,
  find_row-update_rows key_of t token spend (λ x. refl) ts,
)
step_balance token (cleanup now) ts d =
    let keep = λ (t : Token). not (ltb t.expires_at now || t.used) in
    ground (arith, find_row-select key_of keep token ts d)

balance :
    (token : String) (cs : List Call) (ts : TokenStore)
    → AreDistinct key_of ts
    → accepted token cs ts ≤ unused token (view ts token) + issued token cs
balance token [] ts d = omega arith
balance token (c ∷ cs) ts d =
    omega (arith, step_balance token c ts d, balance token cs (step c ts) (step-AreDistinct c ts d))

-- Over any interleaving of calls on a new store a token is accepted at most as often as it was
-- issued: a token that the node generated once registers one partner at most.
pub token_single_use : (token : String) (cs : List Call) → accepted token cs [] ≤ issued token cs
unfolding find_row
token_single_use token cs = omega (arith, balance token cs [] tt)
