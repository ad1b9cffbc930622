-- ===== src/Queue/Process/Refine.antt =====
-- internal/queue/worker.go: a poll of the queue, against what it should do to each row alone.
use fidex_go_node.Common.{
  String, true, false, Option, none, some, List, [], ◌∷◌, ◌≡◌, ◌≢◌, ◌==◌, inl, inr, arith, refl,
  eq_iff, if◌then◌else◌, All, All-mono, Bool-cases,
}
use fidex_go_node.Errors.{ok}
use fidex_go_node.Domain.{Message, queued, same_status}
use fidex_go_node.Crypto.{Jose}
use fidex_go_node.Store.{Fault}
use fidex_go_node.Store.Table.{find_row}
use fidex_go_node.Store.Table.Laws.{AreDistinct, changed, kept, find_row_key, find_row_of_IsFresh}
use fidex_go_node.Store.Messages.{Messages, key_of, list_by_status, order_by_created}
use fidex_go_node.Store.Messages.Rows.{IsValid}
use fidex_go_node.Store.Messages.Order.{
  list_by_status-AreDistinct, find_row-list_by_status, list_by_status-All,
}
use fidex_go_node.Queue.{Moment, Worker}
use fidex_go_node.Queue.Process.{Faults, process_message, process_messages, process_queue}
use fidex_go_node.Queue.Process.Effect.{
  no_faults, settle, process_message_effect, process_message-IsValid,
}

abbrev pub quiet : String → Faults
quiet key = no_faults

module _ (jose : Jose) (w : Worker jose) (moments : String → Moment) where
  -- What a poll should make of the row that is stored under a message_id.
  abbrev pub polled : Option Message → Option Message
  polled none = none
  polled (some row) =
      if same_status row.status queued
      then some (settle jose w (moments row.message_id) row row)
      else some row

  settle_listed : Option Message → Option Message → Option Message
  settle_listed none o = o
  settle_listed (some msg) o = changed true (settle jose w (moments msg.message_id) msg) o

  unmoved :
      (found o : Option Message)
      → settle_listed found (changed false (λ m. m) o) ≡ settle_listed found o
  unfolding settle_listed
  unmoved none o = ground arith
  unmoved (some m) o = ground arith

  process_messages_effect :
      (messages : List Message) (t : Messages) (other : String)
      → All (λ m. m.message_id ≢ "") messages
      → AreDistinct key_of messages
      → find_row key_of other (process_messages jose w moments quiet t messages).rows
        ≡ settle_listed (find_row key_of other messages) (find_row key_of other t.rows)
  unfolding process_messages settle_listed find_row
  process_messages_effect [] t other named d = refl
  process_messages_effect (msg ∷ rest) t other (name, named) (fresh, d) =
      let t' = process_message jose w (moments msg.message_id) no_faults t msg in
      let later = process_messages_effect rest t' other named d in
      let now = process_message_effect jose w (moments msg.message_id) msg t other name in
      elim (Bool-cases (msg.message_id == other)) [
        | inl same ↦
            let gone =
              find_row_of_IsFresh key_of other rest
                (rw ((eq_iff msg.message_id other).0 same) at fresh) in
            rw (later, gone, now, same) refl
        | inr apart ↦ rw (later, now, apart) (unmoved (find_row key_of other rest) _)
      ]

  settle_kept :
      (key : String) (o : Option Message)
      → ((row : Message) → o ≡ some row → row.message_id ≡ key)
      → settle_listed (kept (λ m. same_status m.status queued) o) o ≡ polled o
  unfolding settle_listed
  settle_kept key none h = refl
  settle_kept key (some row) h = elim (Bool-cases (same_status row.status queued)) [
    | inl e ↦ rw e refl
    | inr e ↦ rw e refl
  ]

  process_listed :
      (t : Messages) (key : String)
      → IsValid t
      → (listed : List Message) → list_by_status none t queued ≡ ok listed
      → find_row key_of key (process_messages jose w moments quiet t listed).rows
        ≡ polled (find_row key_of key t.rows)
  process_listed t key v listed h =
      let names =
        list_by_status-All t queued listed v.distinct h (λ m. m.message_id ≢ "")
          (All-mono (λ m c. c.0) t.rows v.complete) in
      rw
        (
          process_messages_effect listed t key names
              (list_by_status-AreDistinct t queued listed v.distinct h),
          find_row-list_by_status t queued listed v.distinct h key,
        )
        (settle_kept key (find_row key_of key t.rows) (λ row. find_row_key key_of key t.rows row))

  -- A poll of a well-formed table, with a database that reports no fault, settles every row that is QUEUED and due, by the
  -- outcome of its own delivery, whichever rows stand before it; every other row stays as it is.
  pub process_queue_lem :
      (t : Messages) (key : String)
      → IsValid t
      → find_row key_of key (process_queue jose w moments none quiet t).rows
        ≡ polled (find_row key_of key t.rows)
  unfolding process_queue list_by_status
  process_queue_lem t key v = process_listed t key v (order_by_created _) refl

  process_messages-IsValid :
      (faults : String → Faults) (messages : List Message) (t : Messages)
      → IsValid t
      → IsValid (process_messages jose w moments faults t messages)
  unfolding process_messages
  process_messages-IsValid faults [] t v = v
  process_messages-IsValid faults (msg ∷ rest) t v =
      process_messages-IsValid faults rest _
        (process_message-IsValid jose w (moments msg.message_id) msg (faults msg.message_id) t v)

  -- Whatever the deliveries come to and whatever the database reports, a poll keeps the table of
  -- messages well-formed.
  pub process_queue-IsValid :
      (listing : Fault) (faults : String → Faults) (t : Messages)
      → IsValid t
      → IsValid (process_queue jose w moments listing faults t)
  unfolding process_queue list_by_status
  process_queue-IsValid none faults t v = process_messages-IsValid faults _ t v
  process_queue-IsValid (some e) faults t v = v
