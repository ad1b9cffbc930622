-- ===== src/Store/Messages.antt =====
-- message_repository.go: the table `messages`. The row id is AUTOINCREMENT, and `sequence` is the
-- largest id given so far. LastInsertId and RowsAffected do not fail in SQLite's drivers.
pub mod Rows
pub mod Create
pub mod Update
pub mod Listing
pub mod Order
pub mod Migration
use fidex_go_node.Common.{
  ℕ, zero, suc, ◌+◌, String, Bool, true, Option, none, some, List, [], ◌∷◌, ◌++◌, ◌≡◌, ◌==◌, ◌||◌,
  ◌&&◌, not, same_number, leb, if◌then◌else◌, is_empty, sprint, quote, length, take, drop, select,
  ℤ, pos, negsuc,
}
use fidex_go_node.Errors.{Error, plain, duplicate_message_id, Result, ok, err}
use fidex_go_node.Json.{Body, is_empty_body, probe_job_type}
use fidex_go_node.Domain.{
  MessageStatus, queued, sent, delivered, failed, quarantined, Message, same_status,
  job_type_process_outbound,
}
use fidex_go_node.Store.{Fault, Driver, is_unique_constraint, or_now, not_found, failure}
use fidex_go_node.Store.Table.{find_row, update_rows, delete_rows, is_found}

pub record Messages : Type 0 where
  pub rows : List Message
  pub sequence : ℕ

abbrev pub key_of : Message → String
key_of m = m.message_id

abbrev pub set_status : MessageStatus → Message → Message
set_status status m = record m { status = status }

abbrev pub set_retry_info : ℕ → Option ℕ → String → Message → Message
set_retry_info count next last m = record m {
  retry_count = count;
  next_retry_at = next;
  last_error = last;
}

unfoldable pub resolve_job_type : String → Body → String
resolve_job_type explicit payload =
    if is_empty explicit
    then (if is_empty_body payload
        then job_type_process_outbound
        else (let (t, fits) = probe_job_type payload in
            if fits && not (is_empty t) then t else job_type_process_outbound))
    else explicit

module _ (driver : Driver) where
  -- INSERT INTO messages: the new table and the new row id.
  unfoldable insert_row : Fault → Messages → Message → Messages × Option String
  insert_row (some e) t m = (t, some e)
  insert_row none t m =
      if is_found (find_row key_of m.message_id t.rows)
      then (t, some driver.unique_error)
      else (record { rows = t.rows ++ m ∷ []; sequence = suc t.sequence }, none)

  insert_failed : String → String → Error
  insert_failed key e =
      if is_unique_constraint e
      then duplicate_message_id
          (sprint ("message_id " ∷ quote key ∷ " already exists: duplicate message_id" ∷ []))
      else plain (sprint ("failed to insert message: " ∷ e ∷ []))

  -- Create: the table, and the message as the caller sees it afterwards.
  unfoldable pub create : ℕ → Fault → Messages → Message → Messages × Result Message
  unfolding insert_failed insert_row
  create now fault t msg =
      if is_empty msg.message_id
      then (t, err (plain "message_id cannot be empty"))
      else if is_empty_body msg.payload
      then (t, err (plain "payload cannot be empty"))
      else let row = record msg {
        id = suc t.sequence;
        created_at = or_now msg.created_at now;
        job_type = resolve_job_type msg.job_type msg.payload;
      } in
        let (t', problem) = insert_row fault t row in
        elim problem [ none ↦ (t', ok row) | some e ↦ (t', err (insert_failed msg.message_id e)) ]

unfoldable pub get_by_id : Fault → Messages → String → Result Message
get_by_id fault t key =
    if is_empty key then err (plain "message_id cannot be empty") else elim fault [
      | some e ↦ err (failure "get message" e)
      | none ↦ elim (find_row key_of key t.rows) [
        | none ↦ err (not_found "message not found: " key)
        | some m ↦ ok m
      ]
    ]

unfoldable pub update_status : Fault → Messages → String → MessageStatus → Messages × Option Error
update_status fault t key status =
    if is_empty key then (t, some (plain "message_id cannot be empty")) else elim fault [
      | some e ↦ (t, some (failure "update message status" e))
      | none ↦ (
        record t { rows = update_rows key_of key (set_status status) t.rows },
        if is_found (find_row key_of key t.rows)
            then none
            else some (not_found "message not found: " key),
      )
    ]

unfoldable pub update_retry_info :
    Fault → Messages → String → ℕ → Option ℕ → String → Messages × Option Error
update_retry_info fault t key count next last =
    if is_empty key then (t, some (plain "message_id cannot be empty")) else elim fault [
      | some e ↦ (t, some (failure "update message retry info" e))
      | none ↦
          (record t { rows = update_rows key_of key (set_retry_info count next last) t.rows }, none)
    ]

unfoldable pub delete : Fault → Messages → String → Messages × Option Error
delete fault t key =
    if is_empty key then (t, some (plain "message_id cannot be empty")) else elim fault [
      | some e ↦ (t, some (failure "delete message" e))
      | none ↦ (
        record t { rows = delete_rows key_of key t.rows },
        if is_found (find_row key_of key t.rows)
            then none
            else some (not_found "message not found: " key),
      )
    ]

-- ORDER BY created_at ASC, rows of one instant in the order of insertion.
unfoldable pub insert_by_created : Message → List Message → List Message
insert_by_created m [] = m ∷ []
insert_by_created m (n ∷ ns) =
    let rest = insert_by_created m ns in
    if leb m.created_at n.created_at then m ∷ n ∷ ns else n ∷ rest

unfoldable pub order_by_created : List Message → List Message
unfolding insert_by_created
order_by_created [] = []
order_by_created (m ∷ ms) = insert_by_created m (order_by_created ms)

unfoldable pub list_by_status : Fault → Messages → MessageStatus → Result (List Message)
list_by_status (some e) t status = err (failure "query messages by status" e)
list_by_status none t status =
    ok (order_by_created (select (λ m. same_status m.status status) t.rows))

unfoldable list_by_status_and_job_type :
    Fault → Messages → MessageStatus → String → Result (List Message)
list_by_status_and_job_type fault t status job_type =
    if is_empty job_type then err (plain "job_type cannot be empty") else elim fault [
      | some e ↦ err (failure "query messages by status+job_type" e)
      | none ↦ ok (
          order_by_created
            (select (λ m. same_status m.status status && m.job_type == job_type) t.rows))
    ]

abbrev pub page_limit : ℤ → ℕ
page_limit (pos zero) = 20
page_limit (pos (suc n)) = suc n
page_limit (negsuc n) = 20

abbrev pub page_offset : ℤ → ℕ
page_offset (pos n) = n
page_offset (negsuc n) = 0

-- ORDER BY created_at DESC, rows of one instant in the order of insertion.
insert_by_age : Message → List Message → List Message
insert_by_age m [] = m ∷ []
insert_by_age m (n ∷ ns) =
    let rest = insert_by_age m ns in if leb n.created_at m.created_at then m ∷ n ∷ ns else n ∷ rest

unfoldable pub order_by_age : List Message → List Message
unfolding insert_by_age
order_by_age [] = []
order_by_age (m ∷ ms) = insert_by_age m (order_by_age ms)

abbrev pub matches : Option MessageStatus → Message → Bool
matches none m = true
matches (some status) m = same_status m.status status

-- ListPaginated: one statement counts, the other lists.
unfoldable pub list_paginated :
    Fault → Fault → Messages → Option MessageStatus → ℤ → ℤ → Result (List Message × ℕ)
unfolding order_by_age
list_paginated (some e) fault t filter limit offset = err (failure "count messages" e)
list_paginated none (some e) t filter limit offset = err (failure "query messages" e)
list_paginated none none t filter limit offset =
    let found = select (matches filter) t.rows in
    ok (take (page_limit limit) (drop (page_offset offset) (order_by_age found)), length found)

abbrev pub count_since : ℕ → MessageStatus → List Message → ℕ
count_since since status rows =
    length (select (λ m. leb since m.created_at && same_status m.status status) rows)

-- GROUP BY status, where a status that no row has makes no group.
unfoldable pub groups : ℕ → List MessageStatus → List Message → List (MessageStatus × ℕ)
groups since [] rows = []
groups since (s ∷ ss) rows =
    let rest = groups since ss rows in
    if same_number (count_since since s rows) 0 then rest else (s, count_since since s rows) ∷ rest

unfoldable pub count_by_status_since : Fault → Messages → ℕ → Result (List (MessageStatus × ℕ))
unfolding groups
count_by_status_since (some e) t since = err (failure "query message counts" e)
count_by_status_since none t since =
    ok (groups since (queued ∷ sent ∷ delivered ∷ failed ∷ quarantined ∷ []) t.rows)
