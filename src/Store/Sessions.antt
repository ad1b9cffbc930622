-- ===== src/Store/Sessions.antt =====
-- session_repository.go: the table `sessions`, whose primary key is the session_id. A broken foreign
-- key arrives as the driver's fault.
use fidex_go_node.Common.{
  ℕ, String, Option, none, some, List, [], ◌∷◌, ◌++◌, same_number, ltb, if◌then◌else◌, is_empty,
  select, not,
}
use fidex_go_node.Errors.{Error, plain, Result, ok, err}
use fidex_go_node.Domain.{Session}
use fidex_go_node.Store.{Fault, Driver, or_now, not_found, failure}
use fidex_go_node.Store.Table.{find_row, delete_rows, is_found}

abbrev pub Sessions : Type 0
Sessions = List Session

abbrev pub key_of : Session → String
key_of s = s.session_id

abbrev empty_id : Error
empty_id = plain "session_id cannot be empty"

unfoldable pub create : Driver → ℕ → Fault → Sessions → Session → Sessions × Option Error
create driver now fault t s = if is_empty s.session_id then (t, some empty_id) else elim fault [
  | some e ↦ (t, some (failure "create session" e))
  | none ↦
      if is_found (find_row key_of s.session_id t)
      then (t, some (failure "create session" driver.unique_error))
      else (t ++ record s { created_at = or_now s.created_at now } ∷ [], none)
]

unfoldable pub get_by_id : Fault → Sessions → String → Result Session
get_by_id fault t key = if is_empty key then err empty_id else elim fault [
  | some e ↦ err (failure "get session" e)
  | none ↦ elim (find_row key_of key t) [
    | none ↦ err (not_found "session not found: " key)
    | some s ↦ ok s
  ]
]

unfoldable pub delete : Fault → Sessions → String → Sessions × Option Error
delete fault t key = if is_empty key then (t, some empty_id) else elim fault [
  | some e ↦ (t, some (failure "delete session" e))
  | none ↦ (
    delete_rows key_of key t,
    if is_found (find_row key_of key t) then none else some (not_found "session not found: " key),
  )
]

unfoldable pub delete_by_user_id : Fault → Sessions → ℕ → Sessions × Option Error
delete_by_user_id (some e) t user_id = (t, some (failure "delete sessions by user_id" e))
delete_by_user_id none t user_id = (select (λ s. not (same_number s.user_id user_id)) t, none)

unfoldable delete_expired : ℕ → Fault → Sessions → Sessions × Option Error
delete_expired now (some e) t = (t, some (failure "delete expired sessions" e))
delete_expired now none t = (select (λ s. not (ltb s.expires_at now)) t, none)
