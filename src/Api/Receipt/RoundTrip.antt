-- ===== src/Api/Receipt/RoundTrip.antt =====
-- internal/queue/worker.go and internal/api/external_handlers.go: the J-MDN that one node's worker
-- posts, as the receipt that another node's handler receives.
use fidex_go_node.Common.{
  false, Bool-cases, refl, to_upper_is, ◌||◌, String, true, none, some, ◌≡◌, ◌≢◌, inl, inr, arith,
  eq_iff, Option-cases, if◌then◌else◌, ◌==◌,
}
use fidex_go_node.Errors.{ok, Result-cases}
use fidex_go_node.Json.{json, decode, same_key}
use fidex_go_node.Domain.{failed, delivered, Message}
use fidex_go_node.Crypto.{Jose, Engine}
use fidex_go_node.Wire.{JmdnJob, JmdnReceiptBody, encode_receipt_body, decode_jmdn_job}
use fidex_go_node.Store.{Driver}
use fidex_go_node.Store.Table.{find_row}
use fidex_go_node.Store.Messages.{Messages, key_of, set_status}
use fidex_go_node.Queue.{HttpRequest, Moment, Worker, jmdn_request, build_jmdn, disposition}
use fidex_go_node.Api.{Handlers}
use fidex_go_node.Api.Receipt.{FlatReceipt, decode_flat, Arrival, receipt_handler}
use fidex_go_node.Api.Receipt.Reconcile.{flat_receipt_effect}

abbrev flat_of : JmdnReceiptBody → FlatReceipt
flat_of b = record {
  receipt = record {
    original_message_id = b.original_message_id;
    status = b.status;
    hash_verification = b.hash_verification;
    timestamp = b.timestamp;
    error_log = none;
  };
  receiver_id = b.receiver_id;
  signature = b.signature;
}

decode-encode_receipt_body :
    (b : JmdnReceiptBody) → decode_flat (json (encode_receipt_body b)) ≡ (flat_of b, true)
unfolding decode_flat encode_receipt_body decode same_key
decode-encode_receipt_body b = ground arith

failed_is_failed : to_upper_is "FAILED" "FAILED" ≡ true
unfolding to_upper_is
failed_is_failed = refl

delivered_is_neither :
    (to_upper_is "DELIVERED" "FAILED" ≡ false) × (to_upper_is "DELIVERED" "ERROR" ≡ false)
unfolding to_upper_is
delivered_is_neither = (refl, refl)

settled_status :
    (status : String)
    → (if to_upper_is (disposition status) "FAILED" || to_upper_is (disposition status) "ERROR"
        then failed
        else delivered)
      ≡ (if to_upper_is status "FAILED" then failed else delivered)
unfolding disposition
settled_status status = elim (Bool-cases (to_upper_is status "FAILED")) [
  | inl e ↦ rw (e, failed_is_failed) refl
  | inr e ↦ rw (e, delivered_is_neither.0, delivered_is_neither.1) refl
]

module _ (jose : Jose) (w : Worker jose) (moment : Moment) (msg : Message) where
  build_jmdn_lem :
      (engine : Engine jose) (original status payload : String)
      → ((build_jmdn jose w engine moment original status payload).original_message_id ≡ original)
        × ((build_jmdn jose w engine moment original status payload).status ≡ status)
  unfolding build_jmdn
  build_jmdn_lem engine original status payload = (ground arith, ground arith)

  abbrev job_of : JmdnJob
  job_of = (decode_jmdn_job msg.payload).0

  jmdn_request_body :
      (request : HttpRequest)
      → jmdn_request jose w moment msg ≡ ok request
      → (engine : Engine jose) × (request.body
          ≡ encode_receipt_body (
              build_jmdn jose w engine moment job_of.original_message_id
                (disposition job_of.status)
                job_of.original_payload))
        × (job_of.original_message_id ≢ "")
  unfolding jmdn_request
  jmdn_request_body request h =
      let named = eq_iff job_of.original_message_id "" in
      elim (Option-cases w.engine) [
        | inl a ↦ ground arith
        | inr (engine, a) ↦ elim (Result-cases (moment.lookup job_of.recipient_partner_id)) [
          | inr (e, b) ↦ ground arith
          | inl (partner, b) ↦ (engine, ground arith, ground (arith, named))
        ]
      ]

  -- The J-MDN that a worker posts for a job, whether or not it could be signed, is understood by a
  -- node whose database reports no fault: the row of the original message becomes FAILED when the job's status is FAILED in any
  -- case, and DELIVERED for every other status; every other row that was there stays as it is.
  pub jmdn_request-receipt_handler :
      (request : HttpRequest) (driver : Driver) (arrival : Arrival) (receiver : Jose)
      (h : Handlers receiver) (t : Messages) (key : String) (row : Message)
      → jmdn_request jose w moment msg ≡ ok request
      → arrival.insert_fault ≡ none
      → arrival.update_fault ≡ none
      → find_row key_of key t.rows ≡ some row
      → find_row key_of key (receipt_handler driver arrival receiver h t (json request.body)).0.rows
        ≡ some (
            if job_of.original_message_id == key
            then set_status (if to_upper_is job_of.status "FAILED" then failed else delivered) row
            else row)
  unfolding build_jmdn
  jmdn_request-receipt_handler request driver arrival receiver h t key row made quiet calm f =
      let (engine, posted, named) = jmdn_request_body request made in
      let b =
        build_jmdn jose w engine moment job_of.original_message_id (disposition job_of.status)
          job_of.original_payload in
      let (original, status) =
        build_jmdn_lem engine job_of.original_message_id (disposition job_of.status)
          job_of.original_payload in
      let effect =
        flat_receipt_effect driver arrival receiver h t (json (encode_receipt_body b)) (flat_of b)
          key row (decode-encode_receipt_body b) (rw original named) quiet calm f in
      rw posted (rw (original, status, settled_status job_of.status) at effect)
