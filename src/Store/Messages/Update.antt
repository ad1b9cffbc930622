-- ===== src/Store/Messages/Update.antt =====
-- message_repository.go: what UpdateStatus, UpdateRetryInfo and Delete do to every row.
use fidex_go_node.Common.{
  ℕ, ◌≤◌, String, Option, none, some, ◌≡◌, ◌≢◌, ◌==◌, ◌↔◌, arith, refl, if◌then◌else◌, eq_iff,
}
use fidex_go_node.Domain.{Message, MessageStatus}
use fidex_go_node.Store.{Fault}
use fidex_go_node.Store.Table.{find_row, update_rows, delete_rows}
use fidex_go_node.Store.Messages.{
  Messages, update_status, update_retry_info, delete, set_status, set_retry_info, key_of,
}
use fidex_go_node.Store.Table.Laws.{
  changed, find_row-update_rows, find_row-delete_rows, update_rows-All, delete_rows-All,
  update_rows-AreDistinct, delete_rows-AreDistinct,
}
use fidex_go_node.Store.Messages.Rows.{IsComplete, IsValid}

module _ (t : Messages) (key other : String) where
  -- UpdateStatus, when the driver reports no fault and the message_id is not empty, gives the row of
  -- that message_id the new status, changes no other row and no other column, and returns an error
  -- exactly when there is no such row. Under a fault the table is as it was and an error returned.
  update_status_effect :
      (status : MessageStatus) (e : String)
      → key ≢ ""
      → (find_row key_of other (update_status none t key status).0.rows
          ≡ changed (key == other) (set_status status) (find_row key_of other t.rows))
        × (((update_status none t key status).1 ≡ none) ↔ (find_row key_of key t.rows ≢ none))
        × ((update_status (some e) t key status).0 ≡ t)
        × ((update_status (some e) t key status).1 ≢ none)
  unfolding update_status
  update_status_effect status e n = ground (
    arith,
    eq_iff key "",
    find_row-update_rows key_of key other (set_status status) (λ m. refl) t.rows,
  )

  -- UpdateRetryInfo, when the driver reports no fault and the message_id is not empty, sets the retry
  -- count, the time of the next attempt and the last error of that row, and changes no other row.
  update_retry_info_effect :
      (count : ℕ) (next : Option ℕ) (last : String)
      → key ≢ ""
      → (find_row key_of other (update_retry_info none t key count next last).0.rows
          ≡ changed (key == other) (set_retry_info count next last) (find_row key_of other t.rows))
        × ((update_retry_info none t key count next last).1 ≡ none)
  unfolding update_retry_info
  update_retry_info_effect count next last n = ground (
    arith,
    eq_iff key "",
    find_row-update_rows key_of key other (set_retry_info count next last) (λ m. refl) t.rows,
  )

  -- After Delete, with no fault and a message_id that is not empty, no row has that message_id, every
  -- other row is found as before, and an error is returned exactly when there was no such row.
  delete_effect :
      key ≢ ""
      → (find_row key_of other (delete none t key).0.rows
          ≡ (if key == other then none else find_row key_of other t.rows))
        × (((delete none t key).1 ≡ none) ↔ (find_row key_of key t.rows ≢ none))
  unfolding delete
  delete_effect n = ground (arith, eq_iff key "", find_row-delete_rows key_of key other t.rows)

module _ (t : Messages) (key : String) (fault : Fault) (v : IsValid t) where
  update_rows-IsValid :
      (f : Message → Message)
      → ((m : Message) → (f m).message_id ≡ m.message_id)
      → ((m : Message) → m.id ≤ t.sequence → (f m).id ≤ t.sequence)
      → ((m : Message) → IsComplete m → IsComplete (f m))
      → IsValid (record t { rows = update_rows key_of key f t.rows })
  update_rows-IsValid f keeps number complete = record {
    distinct = update_rows-AreDistinct key_of key f keeps t.rows v.distinct;
    numbered = update_rows-All key_of (λ m. m.id ≤ t.sequence) key f number t.rows v.numbered;
    complete = update_rows-All key_of IsComplete key f complete t.rows v.complete;
  }

  pub update_status-IsValid :
      (status : MessageStatus) → IsValid (update_status fault t key status).0
  unfolding update_status
  update_status-IsValid status =
      let after = update_rows-IsValid (set_status status) (λ m. refl) (λ m h. h) (λ m h. h) in
      ground arith

  pub update_retry_info-IsValid :
      (count : ℕ) (next : Option ℕ) (last : String)
      → IsValid (update_retry_info fault t key count next last).0
  unfolding update_retry_info
  update_retry_info-IsValid count next last =
      let after =
        update_rows-IsValid (set_retry_info count next last) (λ m. refl) (λ m h. h) (λ m h. h) in
      ground arith

  pub delete-IsValid : IsValid (delete fault t key).0
  unfolding delete
  delete-IsValid =
      let after : IsValid (record t { rows = delete_rows key_of key t.rows }) = record {
        distinct = delete_rows-AreDistinct key_of key t.rows v.distinct;
        numbered = delete_rows-All key_of (λ m. m.id ≤ t.sequence) key t.rows v.numbered;
        complete = delete_rows-All key_of IsComplete key t.rows v.complete;
      } in
      ground arith
