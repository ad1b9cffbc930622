-- ===== src/Examples/Api.antt =====
-- The theorems on the handlers at concrete inputs.
use fidex_go_node.Common.{String, true, none, some, [], ◌≡◌, ◌≢◌, refl, arith, eq_iff}
use fidex_go_node.Errors.{plain, Result, ok, err}
use fidex_go_node.Json.{Body, json, decode, same_key}
use fidex_go_node.Domain.{
  queued, outbound, job_type_send_jmdn, inbound, Message, Partner, delivered,
}
use fidex_go_node.Crypto.{decrypt_and_verify}
use fidex_go_node.Crypto.Keys.{parse_public_key_by_use, select_key}
use fidex_go_node.Wire.{FidexEnvelope, encode_envelope, decode_jmdn_job}
use fidex_go_node.Store.Table.{find_row}
use fidex_go_node.Store.Messages.{Messages, key_of, create}
use fidex_go_node.Queue.{job_type_of}
use fidex_go_node.Api.{Handlers, decode_envelope, validate_fidex_envelope}
use fidex_go_node.Api.Inbound.{
  Arrival, Rejection, inbound_handler, write_inbound_rejection, rejected, admit, admit_from,
  open_envelope, store_envelope, conclude, record_envelope, stored_payload,
}
use fidex_go_node.Api.Inbound.ReceiptJob.{inbound_handler-job}
use fidex_go_node.Api.Inbound.Admit.{services, Accepted, inbound-Accepted, inbound_replay}
use fidex_go_node.Api.Inbound.EndToEnd.{AreAcquainted, posted, deliver-inbound_handler}
use fidex_go_node.Examples.{
  toy, toy-IsReliable, engine, first, one_message, sqlite, partner_b, order,
}
use fidex_go_node.Examples.Queue
use fidex_go_node.Examples.Queue.{worker, moment, posted_is_sealed, sig_of_b}

abbrev pub arrival : Arrival
arrival = record { now = 200; receipt_job_id = "u-1"; message_fault = none; receipt_fault = none }

abbrev envelope_named : String → FidexEnvelope
envelope_named id = record {
  routing = record {
    fidex_version = "1.0";
    message_id = id;
    sender_id = "node-b";
    receiver_id = "node-a";
    document_type = "ORDER";
    timestamp = "t";
    receipt_webhook = "";
  };
  payload = "order";
}

abbrev body_named : String → Body
body_named id = json (encode_envelope (envelope_named id))

abbrev find_b : String → Result Partner
find_b key = ok partner_b

abbrev find_nobody : String → Result Partner
find_nobody key = err (plain "partner not found")

abbrev pub handlers : Handlers toy
handlers = services toy engine find_b

read_m1 : decode_envelope (body_named "m-1") ≡ (envelope_named "m-1", true)
unfolding decode_envelope encode_envelope decode same_key
read_m1 = refl

read_m2 : decode_envelope (body_named "m-2") ≡ (envelope_named "m-2", true)
unfolding decode_envelope encode_envelope decode same_key
read_m2 = refl

valid_m1 : validate_fidex_envelope (envelope_named "m-1") ≡ none
unfolding validate_fidex_envelope
valid_m1 = refl

valid_m2 : validate_fidex_envelope (envelope_named "m-2") ≡ none
unfolding validate_fidex_envelope
valid_m2 = refl

taken_m1 : find_row key_of "m-1" one_message.rows ≢ none
unfolding find_row
taken_m1 h = ground arith

pub free_m2 : find_row key_of "m-2" one_message.rows ≡ none
unfolding find_row
free_m2 = refl

inbound_replay_example :
    inbound_handler sqlite arrival toy handlers one_message (body_named "m-1") ≡ (
      one_message,
      write_inbound_rejection 409 (
          rejected
            (envelope_named "m-1")
            "DUPLICATE_MESSAGE"
            "message_id has already been received"),
    )
inbound_replay_example =
    inbound_replay sqlite arrival toy handlers one_message (body_named "m-1") (envelope_named "m-1")
      (read_m1, valid_m1) refl taken_m1

abbrev strangers : Handlers toy
strangers = services toy engine find_nobody

abbrev unknown_partner : Rejection
unknown_partner = record {
  status = "QUARANTINED";
  error_code = "UNKNOWN_PARTNER";
  message = "sender_id is not a registered partner";
  message_id = "m-2";
}

accepted_m2 :
    (inbound_handler sqlite arrival toy handlers one_message (body_named "m-2")).1.status ≡ 202
unfolding inbound_handler decode_envelope encode_envelope decode same_key validate_fidex_envelope
    admit admit_from open_envelope parse_public_key_by_use select_key decrypt_and_verify
    store_envelope conclude record_envelope create find_row stored_payload
accepted_m2 = refl

inbound-Accepted_example :
    Accepted toy engine find_b sqlite arrival one_message
      (body_named "m-2")
      (inbound_handler sqlite arrival toy handlers one_message (body_named "m-2")).0
inbound-Accepted_example =
    inbound-Accepted toy engine find_b sqlite arrival one_message (body_named "m-2") accepted_m2

abbrev node_a : Partner
node_a = record partner_b { partner_id = "node-a" }

abbrev find_a : String → Result Partner
find_a key = ok node_a

acquainted :
    AreAcquainted toy toy-IsReliable worker moment first Queue.posted posted_is_sealed engine find_a
acquainted = record {
  registration = node_a;
  sealed_for_receiver = refl;
  registered = refl;
  published = λ h. ground (arith, h, eq_iff "keys" "");
  signing_key = sig_of_b;
}

abbrev empty : Messages
empty = record { rows = []; sequence = 0 }

abbrev envelope_a : FidexEnvelope
envelope_a =
    posted toy toy-IsReliable worker moment first Queue.posted posted_is_sealed engine find_a

valid_a : validate_fidex_envelope envelope_a ≡ none
unfolding validate_fidex_envelope
valid_a = refl

free_m1 : find_row key_of "m-1" empty.rows ≡ none
unfolding find_row
free_m1 = refl

end_to_end_example :
    ((inbound_handler sqlite arrival toy
        (services toy engine find_a)
        empty
        (json Queue.posted.body)).1.status
      ≡ 202)
    × (row : Message) × (find_row key_of "m-1"
          (inbound_handler sqlite arrival toy
            (services toy engine find_a)
            empty
            (json Queue.posted.body)).0.rows
        ≡ some row)
    × (row.payload ≡ json order)
    × (row.status ≡ delivered)
    × (row.direction ≡ inbound)
end_to_end_example =
    deliver-inbound_handler toy toy-IsReliable worker moment first Queue.posted posted_is_sealed
      engine find_a sqlite arrival empty acquainted valid_a refl free_m1

free_u1 : find_row key_of "u-1" one_message.rows ≡ none
unfolding find_row
free_u1 = refl

queue_receipt_example :
    (row : Message) × (find_row key_of "u-1"
        (inbound_handler sqlite arrival toy handlers one_message (body_named "m-2")).0.rows
      ≡ some row)
    × (row.status ≡ queued)
    × (row.direction ≡ outbound)
    × (job_type_of row ≡ job_type_send_jmdn)
    × (decode_jmdn_job row.payload ≡ (
      record {
        job_type = job_type_send_jmdn;
        original_message_id = "m-2";
        recipient_partner_id = "node-b";
        status = "processed";
        original_payload = "order";
      },
      true,
    ))
queue_receipt_example =
    inbound_handler-job sqlite arrival toy handlers one_message (body_named "m-2")
      (envelope_named "m-2") (read_m2, valid_m2) accepted_m2
      (λ h. ground (arith, h, eq_iff "ORDER" "receipt")) refl
      (λ h. ground (arith, h, eq_iff "u-1" "")) (λ h. ground (arith, h, eq_iff "u-1" "m-2")) free_u1
