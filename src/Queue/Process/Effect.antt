-- ===== src/Queue/Process/Effect.antt =====
-- internal/queue/worker.go: what one round of the loop does to the table.
use fidex_go_node.Common.{
  ℕ, suc, String, Bool, Option, none, some, ◌≡◌, ◌≢◌, ◌==◌, inl, inr, arith, refl, eq_iff,
  if◌then◌else◌, Bool-cases,
}
use fidex_go_node.Errors.{Error}
use fidex_go_node.Domain.{Message, delivered, failed}
use fidex_go_node.Crypto.{Jose}
use fidex_go_node.Store.Table.{find_row, update_rows}
use fidex_go_node.Store.Table.Laws.{changed, find_row-update_rows}
use fidex_go_node.Store.Messages.{
  Messages, key_of, set_status, set_retry_info, update_status, update_retry_info,
}
use fidex_go_node.Store.Messages.Rows.{IsValid}
use fidex_go_node.Store.Messages.Update.{update_status-IsValid, update_retry_info-IsValid}
use fidex_go_node.Queue.{Moment, Worker, deliver_message}
use fidex_go_node.Queue.Process.{
  Faults, handle_success, handle_failure, last_error, next_attempt, should_retry, is_due, handle,
  process_message,
}

abbrev pub no_faults : Faults
no_faults = record { status = none; retry = none }

-- What becomes of a row whose message was delivered with the given outcome: it is DELIVERED, or it
-- stays as it is with one attempt more and a time for the next, or it is FAILED.
abbrev pub retried : ℕ → Error → ℕ → Message → Message
retried now e attempts row =
    set_retry_info attempts (some (next_attempt now attempts)) (last_error e) row

abbrev pub given_up : Error → ℕ → Message → Message
given_up e attempts row = set_retry_info attempts none (last_error e) (set_status failed row)

unfoldable pub outcome : ℕ → ℕ → ℕ → Option Error → Message → Message
outcome max_retries now attempts none row = set_status delivered row
outcome max_retries now attempts (some e) row =
    if should_retry max_retries e attempts
    then retried now e attempts row
    else given_up e attempts row

unchanged : (b : Bool) (o : Option Message) → o ≡ changed b (λ row. row) o
unchanged b o = ground arith

module _ (jose : Jose) (w : Worker jose) (moment : Moment) (msg : Message) where
  abbrev pub settle : Message → Message
  settle =
      if is_due moment.now msg
      then outcome w.max_retries moment.now (suc msg.retry_count)
          (deliver_message jose w moment msg).problem
      else (λ row. row)

  settle_key : (row : Message) → (settle row).message_id ≡ row.message_id
  unfolding outcome
  settle_key row = elim (Bool-cases (is_due moment.now msg)) [
    | inr early ↦ rw early refl
    | inl due ↦ rw due (ground arith)
  ]

  handle_failure_effect :
      (t : Messages) (e : Error) (other : String)
      → msg.message_id ≢ ""
      → find_row key_of other (handle_failure w.max_retries moment.now no_faults t msg e).rows
        ≡ changed
            (msg.message_id == other)
            (outcome w.max_retries moment.now (suc msg.retry_count) (some e))
            (find_row key_of other t.rows)
  unfolding handle_failure update_status update_retry_info outcome
  handle_failure_effect t e other named = ground (
    arith,
    eq_iff msg.message_id "",
    find_row-update_rows key_of msg.message_id other (retried moment.now e (suc msg.retry_count))
        (λ m. refl) t.rows,
    find_row-update_rows key_of msg.message_id other (set_status failed) (λ m. refl) t.rows,
    find_row-update_rows key_of msg.message_id other
        (set_retry_info (suc msg.retry_count) none (last_error e)) (λ m. refl)
        (update_rows key_of msg.message_id (set_status failed) t.rows),
  )

  handle_effect :
      (t : Messages) (problem : Option Error) (other : String)
      → msg.message_id ≢ ""
      → find_row key_of other (handle jose w moment.now no_faults t msg problem).rows
        ≡ changed
            (msg.message_id == other)
            (outcome w.max_retries moment.now (suc msg.retry_count) problem)
            (find_row key_of other t.rows)
  unfolding handle handle_success update_status outcome
  handle_effect t none other named = ground (
    arith,
    eq_iff msg.message_id "",
    find_row-update_rows key_of msg.message_id other (set_status delivered) (λ m. refl) t.rows,
  )
  handle_effect t (some e) other named = handle_failure_effect t e other named

  -- With no fault of the database a round of the loop settles the row of its message, and leaves
  -- every other row as it is.
  pub process_message_effect :
      (t : Messages) (other : String)
      → msg.message_id ≢ ""
      → find_row key_of other (process_message jose w moment no_faults t msg).rows
        ≡ changed (msg.message_id == other) settle (find_row key_of other t.rows)
  unfolding process_message
  process_message_effect t other named = elim (Bool-cases (is_due moment.now msg)) [
    | inr early ↦ rw early (unchanged (msg.message_id == other) (find_row key_of other t.rows))
    | inl due ↦ rw due (handle_effect t (deliver_message jose w moment msg).problem other named)
  ]

  handle_failure-IsValid :
      (faults : Faults) (t : Messages) (e : Error)
      → IsValid t
      → IsValid (handle_failure w.max_retries moment.now faults t msg e)
  unfolding handle_failure
  handle_failure-IsValid faults t e v =
      let marked = update_status-IsValid t msg.message_id faults.status v failed in
      let attempts = suc msg.retry_count in
      elim (Bool-cases (should_retry w.max_retries e attempts)) [
        | inl again ↦ rw again (update_retry_info-IsValid t msg.message_id faults.retry v _ _ _)
        | inr over ↦ rw over (update_retry_info-IsValid _ msg.message_id faults.retry marked _ _ _)
      ]

  handle-IsValid :
      (faults : Faults) (t : Messages) (problem : Option Error)
      → IsValid t
      → IsValid (handle jose w moment.now faults t msg problem)
  unfolding handle handle_success
  handle-IsValid faults t none v = update_status-IsValid t msg.message_id faults.status v delivered
  handle-IsValid faults t (some e) v = handle_failure-IsValid faults t e v

  -- Whatever the database reports, a round keeps the table well-formed.
  pub process_message-IsValid :
      (faults : Faults) (t : Messages)
      → IsValid t
      → IsValid (process_message jose w moment faults t msg)
  unfolding process_message
  process_message-IsValid faults t v = elim (Bool-cases (is_due moment.now msg)) [
    | inr early ↦ rw early v
    | inl due ↦ rw due (handle-IsValid faults t (deliver_message jose w moment msg).problem v)
  ]
