-- ===== src/Api/Inbound.antt =====
-- internal/api/external_handlers.go: inboundHandler.
pub mod Laws
pub mod Admit
pub mod EndToEnd
pub mod ReceiptJob
use fidex_go_node.Common.{
  ℕ, String, Bool, false, none, some, List, [], ◌∷◌, ◌==◌, ◌||◌, ◌&&◌, not, if◌then◌else◌, is_empty,
  contains,
}
use fidex_go_node.Errors.{Error, duplicate_message_id, error_text, Result, ok, err}
use fidex_go_node.Json.{
  Json, text, object, end, field, Body, raw, json, is_empty_body, text_unless_empty,
}
use fidex_go_node.Domain.{
  Message, MessageStatus, queued, delivered, quarantined, MessageDirection, inbound, outbound,
  Partner,
}
use fidex_go_node.Crypto.{Jose, Engine, decrypt_and_verify}
use fidex_go_node.Crypto.Keys.{parse_public_key_by_use}
use fidex_go_node.Wire.{FidexEnvelope}
use fidex_go_node.Store.{Fault, Driver}
use fidex_go_node.Store.Messages.{Messages, create}
use fidex_go_node.Api.{
  Reply, respond_with_error, decode_envelope, marshal_envelope, validate_fidex_envelope, Handlers,
}

pub record Rejection : Type 0 where
  pub status : String
  pub error_code : String
  pub message : String
  pub message_id : String

unfoldable pub write_inbound_rejection : ℕ → Rejection → Reply
write_inbound_rejection code r = record {
  status = code;
  body = some (
      object (
        text_unless_empty "status" r.status (
          field "error_code" (text r.error_code) (
            text_unless_empty "message" r.message
              (text_unless_empty "message_id" r.message_id end)))));
}

unfoldable contains_any : String → List String → Bool
contains_any s [] = false
contains_any s (sub ∷ subs) = not (is_empty sub) && contains s sub || contains_any s subs

-- What the admission of an envelope comes to: the payload to store, empty where nothing was
-- decrypted, or the rejection that goes with a quarantine.
pub data Admission : Type 0 where
  admitted : Body → Admission
  refused : Rejection → Admission

abbrev pub status_of : Admission → MessageStatus
status_of (admitted payload) = delivered
status_of (refused r) = quarantined

abbrev pub payload_of : Admission → Body
payload_of (admitted payload) = payload
payload_of (refused r) = raw ""

-- What one request meets besides the table: the instant, the id of the receipt job, and what the
-- database reports of the two inserts.
pub record Arrival : Type 0 where
  pub now : ℕ
  pub receipt_job_id : String
  pub message_fault : Fault
  pub receipt_fault : Fault

abbrev pub draft : String → MessageDirection → MessageStatus → Body → ℕ → Message
draft message_id direction status payload created_at = record {
  id = 0;
  message_id = message_id;
  direction = direction;
  status = status;
  payload = payload;
  job_type = "";
  retry_count = 0;
  next_retry_at = none;
  last_error = "";
  created_at = created_at;
}

abbrev quarantine : FidexEnvelope → String → String → Admission
quarantine envelope code message = refused (record {
  status = "QUARANTINED";
  error_code = code;
  message = message;
  message_id = envelope.routing.message_id;
})

abbrev pub rejected : FidexEnvelope → String → String → Rejection
rejected envelope code message = record {
  status = "REJECTED";
  error_code = code;
  message = message;
  message_id = envelope.routing.message_id;
}

unfoldable pub failure_code : Error → String
unfolding contains_any
failure_code e =
    if contains_any (error_text e) ("failed to parse JWE" ∷ "failed to decrypt JWE" ∷ [])
    then "DECRYPT_FAILED"
    else "SIGNATURE_INVALID"

unfoldable pub stored_payload : FidexEnvelope → Body → Body
stored_payload envelope payload =
    if is_empty_body payload then json (marshal_envelope envelope) else payload

-- json.Marshal of a map writes its keys in order.
unfoldable pub encode_jmdn_job : FidexEnvelope → Json
encode_jmdn_job envelope = object (
    field "job_type" (text "send_jmdn") (
      field "original_message_id" (text envelope.routing.message_id) (
        field "original_payload" (text envelope.payload) (
          field "recipient_partner_id" (text envelope.routing.sender_id)
            (field "status" (text "processed") end)))))

abbrev pub accepted : Reply
accepted = record { status = 202; body = none }

module _ (jose : Jose) where
  -- The sender is known: its signing key, then the decryption.
  unfoldable pub open_envelope : Engine jose → Partner → FidexEnvelope → Admission
  open_envelope engine partner envelope =
      elim (parse_public_key_by_use jose partner.public_key_jwks "sig") [
        | err e ↦
            quarantine envelope "SIGNATURE_INVALID"
              "sender JWKS does not contain a usable signing key"
        | ok key ↦ elim (decrypt_and_verify jose engine envelope.payload key) [
          | err e ↦
              quarantine envelope (failure_code e) "envelope failed signature/decryption check"
          | ok decrypted ↦ admitted decrypted
        ]
      ]

  unfoldable pub admit_from : Engine jose → (String → Result Partner) → FidexEnvelope → Admission
  admit_from engine lookup envelope = elim (lookup envelope.routing.sender_id) [
    | err e ↦ quarantine envelope "UNKNOWN_PARTNER" "sender_id is not a registered partner"
    | ok partner ↦
        if is_empty partner.public_key_jwks
        then quarantine envelope "UNKNOWN_PARTNER" "sender has no cached signing key"
        else open_envelope engine partner envelope
  ]

  -- Without a crypto service or a partner repository the envelope is taken as it is.
  unfoldable pub admit : Handlers jose → FidexEnvelope → Admission
  admit h envelope = elim h.crypto_service [
    | none ↦ admitted (raw "")
    | some engine ↦ elim h.partner_repo [
      | none ↦ admitted (raw "")
      | some lookup ↦ admit_from engine lookup envelope
    ]
  ]

module _ (driver : Driver) (arrival : Arrival) where
  -- The job that sends the J-MDN; a failure to queue it is only logged.
  unfoldable pub queue_receipt : Messages → FidexEnvelope → Messages
  queue_receipt t envelope =
      (create driver arrival.now arrival.receipt_fault t (
        draft arrival.receipt_job_id outbound queued (json (encode_jmdn_job envelope))
          arrival.now)).0

  unfoldable pub record_envelope :
      Messages → FidexEnvelope → MessageStatus → Body → Messages × Result Message
  record_envelope t envelope status payload = create driver arrival.now arrival.message_fault t (
      draft envelope.routing.message_id inbound status (stored_payload envelope payload)
        arrival.now)

  unfoldable pub not_stored : FidexEnvelope → Error → Reply
  not_stored envelope e = elim e [
    | duplicate_message_id _ ↦
        write_inbound_rejection 409
          (rejected envelope "DUPLICATE_MESSAGE" "message_id has already been received")
    | other ↦ respond_with_error 500 "Failed to store message" other
  ]

  -- The reply once the envelope was recorded, or could not be.
  unfoldable pub conclude : FidexEnvelope → Admission → Messages → Result Message → Messages × Reply
  conclude envelope _ t (err e) = (t, not_stored envelope e)
  conclude envelope (refused r) t (ok row) = (t, write_inbound_rejection 401 r)
  conclude envelope (admitted payload) t (ok row) =
      if envelope.routing.document_type == "receipt"
      then (t, accepted)
      else (queue_receipt t envelope, accepted)

  unfoldable pub store_envelope : Messages → FidexEnvelope → Admission → Messages × Reply
  unfolding record_envelope conclude
  store_envelope t envelope a =
      let (t', problem) = record_envelope t envelope (status_of a) (payload_of a) in
      conclude envelope a t' problem

  unfoldable pub inbound_handler :
      (jose : Jose) → Handlers jose → Messages → Body → Messages × Reply
  inbound_handler jose h t body =
      let (envelope, fits) = decode_envelope body in
      if fits
      then elim (validate_fidex_envelope envelope) [
        | some e ↦
            (t, write_inbound_rejection 400 (rejected envelope "BAD_ENVELOPE" (error_text e)))
        | none ↦ store_envelope t envelope (admit jose h envelope)
      ]
      else (
        t,
        write_inbound_rejection 400 (record {
          status = "REJECTED";
          error_code = "BAD_ENVELOPE";
          message = "request body is not valid JSON";
          message_id = "";
        }),
      )
