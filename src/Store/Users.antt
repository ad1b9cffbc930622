-- ===== src/Store/Users.antt =====
-- user_repository.go: the table `users`, with a UNIQUE username.
use fidex_go_node.Common.{
  ℕ, suc, String, Bool, Option, none, some, List, [], ◌∷◌, ◌++◌, same_number, leb, if◌then◌else◌,
  is_empty, select, not, decimal,
}
use fidex_go_node.Errors.{Error, plain, Result, ok, err}
use fidex_go_node.Domain.{User, Session}
use fidex_go_node.Store.{Fault, Driver, not_found, failure}
use fidex_go_node.Store.Table.{find_row, find_where, update_where, is_found}

pub record Users : Type 0 where
  pub rows : List User
  pub sequence : ℕ

abbrev pub key_of : User → String
key_of u = u.username

abbrev pub has_id : ℕ → User → Bool
has_id id u = same_number u.id id

abbrev empty_hash : Error
empty_hash = plain "password hash cannot be empty"

unfoldable pub create : Driver → ℕ → Fault → Users → String → String → Users × Result User
create driver now fault t username password_hash =
    let u : User = record {
      id = suc t.sequence;
      username = username;
      password_hash = password_hash;
      created_at = now;
    } in
    if is_empty username
    then (t, err (plain "username cannot be empty"))
    else if is_empty password_hash
    then (t, err empty_hash)
    else elim fault [
      | some e ↦ (t, err (failure "create user" e))
      | none ↦
          if is_found (find_row key_of username t.rows)
          then (t, err (failure "create user" driver.unique_error))
          else (record { rows = t.rows ++ u ∷ []; sequence = suc t.sequence }, ok u)
    ]

unfoldable pub get_by_id : Fault → Users → ℕ → Result User
get_by_id (some e) t id = err (failure "get user" e)
get_by_id none t id = elim (find_where (has_id id) t.rows) [
  | none ↦ err (not_found "user not found: " (decimal id))
  | some u ↦ ok u
]

unfoldable pub get_by_username : Fault → Users → String → Result User
get_by_username fault t username =
    if is_empty username then err (plain "username cannot be empty") else elim fault [
      | some e ↦ err (failure "get user" e)
      | none ↦ elim (find_row key_of username t.rows) [
        | none ↦ err (not_found "user not found: " username)
        | some u ↦ ok u
      ]
    ]

-- ORDER BY created_at DESC, rows of one instant in the order of insertion.
insert_newest_first : User → List User → List User
insert_newest_first u [] = u ∷ []
insert_newest_first u (w ∷ ws) =
    let rest = insert_newest_first u ws in
    if leb w.created_at u.created_at then u ∷ w ∷ ws else w ∷ rest

newest_first : List User → List User
unfolding insert_newest_first
newest_first [] = []
newest_first (u ∷ us) = insert_newest_first u (newest_first us)

unfoldable pub list : Fault → Users → Result (List User)
unfolding newest_first
list (some e) t = err (failure "query users" e)
list none t = ok (newest_first t.rows)

-- With the sessions: their rows go with the user's, by ON DELETE CASCADE.
unfoldable pub delete : Fault → Users → List Session → ℕ → Users × List Session × Option Error
delete (some e) t sessions id = (t, sessions, some (failure "delete user" e))
delete none t sessions id = (
  record t { rows = select (λ u. not (has_id id u)) t.rows },
  if is_found (find_where (has_id id) t.rows)
      then select (λ s. not (same_number s.user_id id)) sessions
      else sessions,
  if is_found (find_where (has_id id) t.rows)
      then none
      else some (not_found "user not found: " (decimal id)),
)

unfoldable pub update_password : Fault → Users → ℕ → String → Users × Option Error
update_password fault t id hash = if is_empty hash then (t, some empty_hash) else elim fault [
  | some e ↦ (t, some (failure "update password" e))
  | none ↦ (
    record t { rows = update_where (has_id id) (λ u. record u { password_hash = hash }) t.rows },
    if is_found (find_where (has_id id) t.rows)
        then none
        else some (not_found "user not found: " (decimal id)),
  )
]
