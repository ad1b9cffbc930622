-- ===== src/Queue/Process.antt =====
-- internal/queue/worker.go: processQueue, and what becomes of a message after its delivery.
pub mod Effect
pub mod Refine
pub mod Attempts
pub mod Polls
use fidex_go_node.Common.{
  ℕ, suc, ◌+◌, ◌-◌, ◌*◌, ◌%◌, ◌^◌, ℤ, pos, negsuc, wrap_int64, String, Bool, true, not, Option,
  none, some, List, [], ◌∷◌, ◌&&◌, if◌then◌else◌, ltb,
}
use fidex_go_node.Errors.{Error, error_text, is_app_error, is_retryable, ok, err}
use fidex_go_node.Domain.{Message, queued, delivered, failed}
use fidex_go_node.Crypto.{Jose}
use fidex_go_node.Store.{Fault}
use fidex_go_node.Store.Messages.{Messages, update_status, update_retry_info, list_by_status}
use fidex_go_node.Queue.{Moment, Worker, deliver_message}

-- What the database reports of the two statements that follow a delivery.
pub record Faults : Type 0 where
  pub status : Fault
  pub retry : Fault

unfoldable pub handle_success : Faults → Messages → Message → Messages
handle_success faults t msg = (update_status faults.status t msg.message_id delivered).0

unfoldable pub last_error : Error → String
unfolding is_app_error
last_error e = elim (is_app_error e) [ some app ↦ app.message | none ↦ error_text e ]

abbrev capped : ℤ → ℤ
capped (pos n) = if ltb 60 n then pos 60 else pos n
capped (negsuc n) = negsuc n

-- The square of the number of attempts, as an int, at most 60.
unfoldable pub backoff_minutes : ℕ → ℤ
backoff_minutes attempts = capped (wrap_int64 (attempts * attempts))

-- A minute, in nanoseconds.
abbrev pub minute : ℕ
minute = 60 * 1000000000

-- time.Duration(minutes) * time.Minute
abbrev duration : ℤ → ℤ
duration (pos n) = wrap_int64 (n * minute)
duration (negsuc n) = wrap_int64 (2 ^ 64 - suc n * minute % 2 ^ 64)

-- time.Now().Add
abbrev moved : ℕ → ℤ → ℕ
moved now (pos d) = now + d
moved now (negsuc d) = now - suc d

unfoldable pub next_attempt : ℕ → ℕ → ℕ
next_attempt now attempts = moved now (duration (backoff_minutes attempts))

unfoldable pub should_retry : ℕ → Error → ℕ → Bool
should_retry max_retries e attempts = is_retryable e && ltb attempts max_retries

unfoldable pub handle_failure : ℕ → ℕ → Faults → Messages → Message → Error → Messages
handle_failure max_retries now faults t msg e =
    let attempts = suc msg.retry_count in
    if should_retry max_retries e attempts
    then (update_retry_info faults.retry t msg.message_id attempts
        (some (next_attempt now attempts)) (last_error e)).0
    else (update_retry_info faults.retry (update_status faults.status t msg.message_id failed).0
        msg.message_id attempts none (last_error e)).0

-- `NextRetryAt` is nil or not after the present.
unfoldable pub is_due : ℕ → Message → Bool
is_due now msg = elim msg.next_retry_at [ none ↦ true | some at ↦ not (ltb now at) ]

module _ (jose : Jose) (w : Worker jose) where
  unfoldable pub handle : ℕ → Faults → Messages → Message → Option Error → Messages
  handle now faults t msg none = handle_success faults t msg
  handle now faults t msg (some e) = handle_failure w.max_retries now faults t msg e

  -- One round of the loop.
  unfoldable pub process_message : Moment → Faults → Messages → Message → Messages
  process_message moment faults t msg =
      if is_due moment.now msg
      then handle moment.now faults t msg (deliver_message jose w moment msg).problem
      else t

  -- The loop over the listed messages. What the world does, and what the database reports, in one
  -- round is given by the message_id.
  unfoldable pub process_messages :
      (String → Moment) → (String → Faults) → Messages → List Message → Messages
  process_messages moments faults t [] = t
  process_messages moments faults t (msg ∷ rest) =
      process_messages moments faults
        (process_message (moments msg.message_id) (faults msg.message_id) t msg) rest

  unfoldable pub process_queue : (String → Moment) → Fault → (String → Faults) → Messages → Messages
  process_queue moments listing faults t = elim (list_by_status listing t queued) [
    | err e ↦ t
    | ok messages ↦ process_messages moments faults t messages
  ]
