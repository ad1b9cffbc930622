-- ===== src/Examples/Queue.antt =====
-- The theorems on the worker at concrete inputs.
use fidex_go_node.Common.{
  ℕ, ◌+◌, String, ◌*◌, ◌≤◌, true, Option, none, some, [], ◌∷◌, ◌≡◌, ◌≢◌, refl, arith, eq_iff,
  wrap_int64,
}
use fidex_go_node.Errors.{is_retryable_code, Result, ok, err}
use fidex_go_node.Json.{json, decode, same_key}
use fidex_go_node.Domain.{Message, failed, job_type_send_jmdn}
use fidex_go_node.Crypto.{sign_and_encrypt_with_alg, jose_key_algorithm}
use fidex_go_node.Crypto.Keys.{parse_public_key_by_use, select_key}
use fidex_go_node.Crypto.Negotiate.{negotiate, local_supported}
use fidex_go_node.Wire.{QueuedPayload, decode_queued, encode_envelope}
use fidex_go_node.Store.Table.{find_row}
use fidex_go_node.Store.Messages.{key_of}
use fidex_go_node.Queue.{
  HttpRequest, responded, Moment, Worker, deliver_message, business_request, job_type_of, transmit,
  deliver_business_document,
}
use fidex_go_node.Queue.Process.{process_queue, backoff_minutes, next_attempt}
use fidex_go_node.Queue.Process.Refine.{polled, quiet, process_queue_lem}
use fidex_go_node.Errors.{Error, plain, network, is_retryable, is_app_error}
use fidex_go_node.Queue.{unreachable}
use fidex_go_node.Queue.Process.{minute, is_due, should_retry}
use fidex_go_node.Queue.Process.Effect.{outcome, retried}
use fidex_go_node.Queue.Process.Polls.{polls, AllFail, polls_give_up}
use fidex_go_node.Queue.Process.Attempts.{next_attempt_lem}
use fidex_go_node.Queue.Deliver.{IsSealedFor, deliver_message_sealed}
use fidex_go_node.Examples.{toy, engine, first, one_message, partner_b, order}
use fidex_go_node.Examples.Store.{one_message-IsValid}

abbrev pub worker : Worker toy
worker = record { engine = some engine; node_id = "node-a"; max_retries = 3 }

abbrev pub moment : Moment
moment = record {
  now = 100;
  timestamp = "t";
  rfc3339 = "t";
  lookup = λ key. ok partner_b;
  entropy = 7;
  url_error = λ url. none;
  post = λ r. responded 202 "";
}

process_queue_example :
    find_row key_of "m-1" (process_queue toy worker (λ k. moment) none quiet one_message).rows
    ≡ polled toy worker (λ k. moment) (find_row key_of "m-1" one_message.rows)
process_queue_example =
    process_queue_lem toy worker (λ k. moment) one_message "m-1" one_message-IsValid

abbrev patient : Worker toy
patient = record worker { max_retries = 2 }

abbrev unreachable_at : ℕ → String → Moment
unreachable_at now key = record moment { now = now; post = λ r. unreachable "refused" }

abbrev down : Error
down = network (plain "refused") "message delivery"

abbrev again : Message
again = retried 100 down 1 first

first_fails : (deliver_message toy patient (unreachable_at 100 "m-1") first).problem ≡ some down
unfolding deliver_message job_type_of deliver_business_document transmit business_request
    decode_queued decode same_key parse_public_key_by_use select_key negotiate
    sign_and_encrypt_with_alg jose_key_algorithm
first_fails = refl

second_fails :
    (deliver_message toy patient (unreachable_at (100 + minute) "m-1") again).problem ≡ some down
unfolding deliver_message job_type_of deliver_business_document transmit business_request
    decode_queued decode same_key parse_public_key_by_use select_key negotiate
    sign_and_encrypt_with_alg jose_key_algorithm
second_fails = refl

both_fail : AllFail toy patient (unreachable_at 100 ∷ unreachable_at (100 + minute) ∷ []) first
unfolding is_due outcome should_retry is_retryable network is_app_error backoff_minutes next_attempt
    wrap_int64 is_retryable_code
both_fail = (refl, down, first_fails, (refl, down, second_fails, tt))

first_found : find_row key_of "m-1" one_message.rows ≡ some first
unfolding find_row
first_found = refl

polls_give_up_example :
    (last : Message) × (find_row key_of "m-1"
        (polls toy patient
          (unreachable_at 100 ∷ unreachable_at (100 + minute) ∷ [])
          one_message).rows
      ≡ some last)
    × (last.status ≡ failed)
polls_give_up_example =
    polls_give_up toy patient (unreachable_at 100) (unreachable_at (100 + minute) ∷ []) one_message
      "m-1" first one_message-IsValid refl first_found both_fail (omega arith)

next_attempt_example :
    (9 ≤ 7 → next_attempt 100 9 ≡ 100 + 9 * 9 * 60000000000)
    × (8 ≤ 9 → 9 ≤ 3000000000 → next_attempt 100 9 ≡ 100 + 3600000000000)
next_attempt_example = next_attempt_lem 100 9

abbrev request_of : Result HttpRequest → Option HttpRequest
request_of (ok r) = some r
request_of (err e) = none

is_document : job_type_of first ≢ job_type_send_jmdn
unfolding job_type_of
is_document h = ground (arith, h, eq_iff "process_outbound" "send_jmdn")

-- The request that the toy worker makes for the toy document.
abbrev pub posted : HttpRequest
posted = record {
  url = "https://b/inbound";
  headers =
      ("Content-Type", "application/json")
      ∷ ("User-Agent", "FideX-Node/1.0")
      ∷ ("X-FideX-Message-ID", "m-1")
      ∷ ("X-FideX-Sender", "node-a")
      ∷ [];
  body = encode_envelope (record {
    routing = record {
      fidex_version = "1.0";
      message_id = "m-1";
      sender_id = "node-a";
      receiver_id = "node-b";
      document_type = "ORDER";
      timestamp = "t";
      receipt_webhook = "";
    };
    payload = "order";
  });
}

sends : (deliver_message toy worker moment first).sent ≡ some posted
unfolding deliver_message job_type_of deliver_business_document transmit business_request
    decode_queued decode same_key parse_public_key_by_use select_key negotiate
    sign_and_encrypt_with_alg jose_key_algorithm
sends = refl

deliver_message_example : IsSealedFor toy worker moment first posted
deliver_message_example = deliver_message_sealed toy worker moment first posted is_document sends

abbrev first_payload : QueuedPayload
first_payload = record {
  destination_partner_id = "node-b";
  document_type = "ORDER";
  receipt_webhook = "";
  payload = some order;
}

pub first_read : decode_queued first.payload ≡ (first_payload, true)
unfolding decode_queued decode same_key
first_read = refl

pub enc_of_b : parse_public_key_by_use toy "keys" "enc" ≡ ok tt
unfolding parse_public_key_by_use select_key
enc_of_b = refl

pub sig_of_b : parse_public_key_by_use toy "keys" "sig" ≡ ok tt
unfolding parse_public_key_by_use select_key
sig_of_b = refl

pub oaep_agreed : negotiate local_supported [] ≡ ok "RSA-OAEP"
unfolding negotiate
oaep_agreed = refl

pub order_sealed : sign_and_encrypt_with_alg toy engine 7 (json order) tt "RSA-OAEP" ≡ ok "order"
unfolding sign_and_encrypt_with_alg jose_key_algorithm
order_sealed = refl

-- What the request of the toy worker was made from.
abbrev pub posted_is_sealed : IsSealedFor toy worker moment first posted
posted_is_sealed = record {
  queued_payload = first_payload;
  document = order;
  partner = partner_b;
  key = tt;
  engine = engine;
  alg = "RSA-OAEP";
  jwe = "order";
  read = first_read;
  carries = refl;
  known = refl;
  encryption_key = enc_of_b;
  configured = refl;
  agreed = oaep_agreed;
  sealed = order_sealed;
  addressed = refl;
  enveloped = refl;
}
