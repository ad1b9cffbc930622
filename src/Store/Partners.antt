-- ===== src/Store/Partners.antt =====
-- partner_repository.go: the table `trading_partners`. It has no column for the algorithms that a
-- partner advertises, so a stored row has none.
pub mod Laws
pub mod Negotiated
use fidex_go_node.Common.{
  ℕ, suc, String, Bool, Option, none, some, List, [], ◌∷◌, ◌++◌, ◌==◌, same_number, leb,
  if◌then◌else◌, is_empty, sprint, decimal, length, select, not,
}
use fidex_go_node.Errors.{Error, plain, Result, ok, err, ◌>>=◌, ◌>>◌}
use fidex_go_node.Domain.{Partner}
use fidex_go_node.Store.{Fault, Driver, or_now, not_found, failure}
use fidex_go_node.Store.Table.{
  find_row, update_rows, delete_rows, update_where, find_where, is_found,
}

pub record Partners : Type 0 where
  pub rows : List Partner
  pub sequence : ℕ

abbrev pub key_of : Partner → String
key_of p = p.partner_id

-- The columns of the row with the given id.
abbrev pub row_of : ℕ → Partner → Partner
row_of id p = record p { id = id; supported_encryption_algorithms = [] }

-- `UPDATE … SET`, from the columns of `p`.
abbrev pub set_columns : Partner → Partner → Partner
set_columns p row = record row {
  name = p.name;
  jwks_url = p.jwks_url;
  message_endpoint = p.message_endpoint;
  mdn_receipt_endpoint = p.mdn_receipt_endpoint;
  public_key_jwks = p.public_key_jwks;
  last_key_refresh = p.last_key_refresh;
  updated_at = p.updated_at;
}

abbrev pub stamped : ℕ → Partner → Partner
stamped now p = record p {
  created_at = or_now p.created_at now;
  updated_at = or_now p.updated_at now;
}

abbrev empty_id : Error
empty_id = plain "partner_id cannot be empty"

module _ (driver : Driver) where
  -- Create: the table, and the partner as the caller sees it afterwards.
  unfoldable pub create : ℕ → Fault → Partners → Partner → Partners × Result Partner
  create now fault t p =
      if is_empty p.partner_id
      then (t, err empty_id)
      else if is_empty p.name
      then (t, err (plain "name cannot be empty"))
      else if is_empty p.jwks_url
      then (t, err (plain "jwks_url cannot be empty"))
      else elim fault [
        | some e ↦ (t, err (failure "insert partner" e))
        | none ↦
            if is_found (find_row key_of p.partner_id t.rows)
            then (t, err (failure "insert partner" driver.unique_error))
            else (
              record {
                rows = t.rows ++ row_of (suc t.sequence) (stamped now p) ∷ [];
                sequence = suc t.sequence;
              },
              ok (record (stamped now p) { id = suc t.sequence }),
            )
      ]

unfoldable pub get_by_id : Fault → Partners → String → Result Partner
get_by_id fault t key = if is_empty key then err empty_id else elim fault [
  | some e ↦ err (failure "get partner" e)
  | none ↦ elim (find_row key_of key t.rows) [
    | none ↦ err (not_found "partner not found: " key)
    | some p ↦ ok p
  ]
]

unfoldable pub update : ℕ → Fault → Partners → Partner → Partners × Option Error
update now fault t p = if is_empty p.partner_id then (t, some empty_id) else elim fault [
  | some e ↦ (t, some (failure "update partner" e))
  | none ↦ (
    record t {
      rows = update_rows key_of p.partner_id (set_columns (record p { updated_at = now })) t.rows;
    },
    if is_found (find_row key_of p.partner_id t.rows)
        then none
        else some (not_found "partner not found: " p.partner_id),
  )
]

unfoldable pub delete : Fault → Partners → String → Partners × Option Error
delete fault t key = if is_empty key then (t, some empty_id) else elim fault [
  | some e ↦ (t, some (failure "delete partner" e))
  | none ↦ (
    record t { rows = delete_rows key_of key t.rows },
    if is_found (find_row key_of key t.rows)
        then none
        else some (not_found "partner not found: " key),
  )
]

-- INSERT … ON CONFLICT(partner_id) DO UPDATE
unfoldable pub upsert : ℕ → Fault → Partners → Partner → Partners × Option Error
upsert now fault t p =
    let q = record p { created_at = or_now p.created_at now; updated_at = now } in
    if is_empty p.partner_id then (t, some empty_id) else elim fault [
      | some e ↦ (t, some (failure "upsert partner" e))
      | none ↦
          if is_found (find_row key_of p.partner_id t.rows)
          then (record t { rows = update_rows key_of p.partner_id (set_columns q) t.rows }, none)
          else (
            record { rows = t.rows ++ row_of (suc t.sequence) q ∷ []; sequence = suc t.sequence },
            none,
          )
    ]

abbrev has_id : ℕ → Partner → Bool
has_id id p = same_number p.id id

abbrev no_such_id : ℕ → Error
no_such_id id = plain (sprint ("partner not found: id=" ∷ decimal id ∷ []))

unfoldable pub delete_by_db_id : Fault → Partners → ℕ → Partners × Option Error
delete_by_db_id (some e) t id = (t, some (failure "delete partner" e))
delete_by_db_id none t id = (
  record t { rows = select (λ p. not (has_id id p)) t.rows },
  if is_found (find_where (has_id id) t.rows) then none else some (no_such_id id),
)

unfoldable pub update_name_by_db_id : ℕ → Fault → Partners → ℕ → String → Partners × Option Error
update_name_by_db_id now fault t id name =
    if is_empty name then (t, some (plain "name cannot be empty")) else elim fault [
      | some e ↦ (t, some (failure "update partner name" e))
      | none ↦ (
        record t {
          rows = update_where (has_id id) (λ p. record p { name = name; updated_at = now }) t.rows;
        },
        if is_found (find_where (has_id id) t.rows) then none else some (no_such_id id),
      )
    ]

unfoldable pub count : Fault → Partners → Result ℕ
count (some e) t = err (failure "count partners" e)
count none t = ok (length t.rows)

-- ORDER BY created_at DESC, rows of one instant in the order of insertion.
insert_newest_first : Partner → List Partner → List Partner
insert_newest_first p [] = p ∷ []
insert_newest_first p (q ∷ qs) =
    let rest = insert_newest_first p qs in
    if leb q.created_at p.created_at then p ∷ q ∷ qs else q ∷ rest

unfoldable pub newest_first : List Partner → List Partner
unfolding insert_newest_first
newest_first [] = []
newest_first (p ∷ ps) = insert_newest_first p (newest_first ps)

unfoldable pub list : Fault → Partners → Result (List Partner)
unfolding newest_first
list (some e) t = err (failure "query partners" e)
list none t = ok (newest_first t.rows)
