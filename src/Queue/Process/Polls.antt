-- ===== src/Queue/Process/Polls.antt =====
-- internal/queue/worker.go: a message whose deliveries keep failing, over a series of polls.
use fidex_go_node.Common.{
  suc, ◌+◌, ◌≤◌, String, true, none, some, List, [], ◌∷◌, ◌≡◌, inl, inr, arith, refl, length,
  Bool-cases,
}
use fidex_go_node.Errors.{Error}
use fidex_go_node.Domain.{Message, queued, failed, same_status_iff}
use fidex_go_node.Crypto.{Jose}
use fidex_go_node.Store.Table.{find_row}
use fidex_go_node.Store.Messages.{Messages, key_of}
use fidex_go_node.Store.Messages.Rows.{IsValid}
use fidex_go_node.Queue.{Moment, Worker, deliver_message}
use fidex_go_node.Queue.Process.{process_queue, is_due, should_retry}
use fidex_go_node.Queue.Process.Effect.{outcome, retried, given_up}
use fidex_go_node.Queue.Process.Refine.{quiet, process_queue_lem, process_queue-IsValid}

module _ (jose : Jose) (w : Worker jose) where
  -- A series of polls; what the world does in each is given by the message_id.
  abbrev pub polls : List (String → Moment) → Messages → Messages
  polls [] t = t
  polls (moments ∷ rest) t = polls rest (process_queue jose w moments none quiet t)

  -- Every poll of the series finds the row due, and its delivery fails; between two polls the row
  -- changes as one failure changes it.
  abbrev pub AllFail : List (String → Moment) → Message → Type 0
  AllFail [] row = Unit
  AllFail (moments ∷ rest) row =
      let moment = moments row.message_id in
      (is_due moment.now row ≡ true)
      × (e : Error) × ((deliver_message jose w moment row).problem ≡ some e)
      × AllFail rest (outcome w.max_retries moment.now (suc row.retry_count) (some e) row)

  polls-failed :
      (series : List (String → Moment)) (t : Messages) (key : String) (row : Message)
      → IsValid t
      → row.status ≡ failed
      → find_row key_of key t.rows ≡ some row
      → find_row key_of key (polls series t).rows ≡ some row
  polls-failed [] t key row v s f = f
  polls-failed (moments ∷ rest) t key row v s f =
      polls-failed rest _ key row (process_queue-IsValid jose w moments none quiet t v) s (
        ground (arith, process_queue_lem jose w moments t key v, same_status_iff row.status queued))

  poll_failure :
      (moments : String → Moment) (t : Messages) (key : String) (row : Message) (e : Error)
      → IsValid t
      → row.status ≡ queued
      → find_row key_of key t.rows ≡ some row
      → is_due (moments row.message_id).now row ≡ true
      → (deliver_message jose w (moments row.message_id) row).problem ≡ some e
      → find_row key_of key (process_queue jose w moments none quiet t).rows
        ≡ some
            (outcome w.max_retries (moments row.message_id).now (suc row.retry_count) (some e) row)
  poll_failure moments t key row e v s f due fails =
      ground (arith, process_queue_lem jose w moments t key v, same_status_iff row.status queued)

  -- Take a QUEUED message of a well-formed table, and a series of polls, at least one, each of which
  -- finds the message due, fails to deliver it and meets no fault of the database. When the polls
  -- together with the attempts behind the message reach the node's limit, it is FAILED after them.
  pub polls_give_up :
      (first : String → Moment) (rest : List (String → Moment)) (t : Messages) (key : String)
      (row : Message)
      → IsValid t
      → row.status ≡ queued
      → find_row key_of key t.rows ≡ some row
      → AllFail (first ∷ rest) row
      → w.max_retries ≤ length (first ∷ rest) + row.retry_count
      → (last : Message) × (find_row key_of key (polls (first ∷ rest) t).rows ≡ some last)
        × (last.status ≡ failed)
  unfolding outcome should_retry
  polls_give_up first [] t key row v s f (due, e, fails, a) enough = (
    given_up e (suc row.retry_count) row,
    ground (arith, poll_failure first t key row e v s f due fails),
    refl,
  )
  polls_give_up first (second ∷ rest) t key row v s f (due, e, fails, a) enough =
      let now = (first row.message_id).now in
      let attempts = suc row.retry_count in
      let after = poll_failure first t key row e v s f due fails in
      let valid = process_queue-IsValid jose w first none quiet t v in
      elim (Bool-cases (should_retry w.max_retries e attempts)) [
        | inr over ↦ (
          given_up e attempts row,
          polls-failed (second ∷ rest) _ key (given_up e attempts row) valid refl
              (ground (arith, after)),
          refl,
        )
        | inl again ↦
            polls_give_up second rest _ key (retried now e attempts row) valid s
              (ground (arith, after)) (rw again at a) (omega (arith, enough))
      ]
