-- ===== src/Api/Receipt.antt =====
-- internal/api/external_handlers.go: receiptHandler.
pub mod Reconcile
pub mod RoundTrip
use fidex_go_node.Common.{
  ℕ, String, Bool, Option, none, some, [], ◌∷◌, ◌==◌, ◌||◌, ◌&&◌, not, if◌then◌else◌, is_empty,
  sprint, to_upper_is,
}
use fidex_go_node.Errors.{
  Error, plain, duplicate_message_id, Result, ok, err, ◌>>=◌, ◌>>◌, refuse_if,
}
use fidex_go_node.Json.{text, Body, Member, text_member, decode}
use fidex_go_node.Domain.{Message, MessageStatus, delivered, failed, inbound, Partner}
use fidex_go_node.Crypto.{
  Jose, Engine, JmdnReceipt, no_receipt, decode_receipt, error_log_member, verify_jmdn,
}
use fidex_go_node.Crypto.Keys.{parse_public_key_by_use}
use fidex_go_node.Wire.{FidexEnvelope}
use fidex_go_node.Store.{Fault, Driver}
use fidex_go_node.Store.Messages.{Messages, create, update_status}
use fidex_go_node.Api.{Reply, respond_with_error, decode_envelope, validate_jmdn_envelope, Handlers}
use fidex_go_node.Api.Inbound.{draft, accepted}

-- flatJMDNReceipt: its receipt, and the two members that the handler uses besides.
pub record FlatReceipt : Type 0 where
  pub receipt : JmdnReceipt
  pub receiver_id : String
  pub signature : String

abbrev in_receipt : (JmdnReceipt → JmdnReceipt) → FlatReceipt → FlatReceipt
in_receipt f r = record r { receipt = f r.receipt }

abbrev flat_error_log : Member FlatReceipt
flat_error_log = record {
  key = "error_log";
  put = λ v r.
      let (receipt, fits) = error_log_member.put v r.receipt in
      (record r { receipt = receipt }, fits);
}

unfoldable pub decode_flat : Body → FlatReceipt × Bool
decode_flat body =
    decode
      (text_member "original_message_id"
          (λ t. in_receipt (λ r. record r { original_message_id = t }))
        ∷ text_member "status" (λ t. in_receipt (λ r. record r { status = t }))
        ∷ text_member "receiver_id" (λ t r. record r { receiver_id = t })
        ∷ text_member "hash_verification"
            (λ t. in_receipt (λ r. record r { hash_verification = t }))
        ∷ text_member "timestamp" (λ t. in_receipt (λ r. record r { timestamp = t }))
        ∷ flat_error_log
        ∷ text_member "signature" (λ t r. record r { signature = t })
        ∷ [])
      body (record { receipt = no_receipt; receiver_id = ""; signature = "" })

-- What one request meets besides the table. `unquote` reads a text as a request body.
pub record Arrival : Type 0 where
  pub now : ℕ
  pub unquote : String → Body
  -- The JSON decoder's account of a body that is no envelope.
  pub decode_error : Error
  pub insert_fault : Fault
  pub update_fault : Fault

-- The two wire shapes: the id that the receipt is stored under, and the receipt, or the envelope.
pub data Shape : Type 0 where
  flat : FlatReceipt → Shape
  wrapped : FidexEnvelope → Shape

pub data Reading : Type 0 where
  shaped : Shape → Reading
  unreadable : String → Error → Reading

unfoldable pub shape_of : Error → Body → Reading
shape_of decode_error body =
    let (r, is_flat) = decode_flat body in
    if is_flat && not (is_empty r.receipt.original_message_id)
    then shaped (flat r)
    else let (envelope, fits) = decode_envelope body in
      if fits
      then elim (validate_jmdn_envelope envelope) [
        | some e ↦ unreadable "Invalid receipt envelope" e
        | none ↦ shaped (wrapped envelope)
      ]
      else unreadable "Invalid JSON in request body" decode_error

unfoldable pub receipt_message_id : Shape → String
receipt_message_id (flat r) =
    sprint ("jmdn:" ∷ r.receipt.original_message_id ∷ ":" ∷ r.receipt.timestamp ∷ [])
receipt_message_id (wrapped envelope) = envelope.routing.message_id

-- The upper case of the status is FAILED or ERROR.
unfoldable pub new_status : String → MessageStatus
new_status status =
    if to_upper_is status "FAILED" || to_upper_is status "ERROR" then failed else delivered

abbrev quiet_refusal : Error
quiet_refusal = plain ""

module _ (jose : Jose) where
  abbrev engine_of : Handlers jose → Result (Engine jose)
  engine_of h = elim h.crypto_service [ none ↦ err quiet_refusal | some e ↦ ok e ]

  abbrev repo_of : Handlers jose → Result (String → Result Partner)
  repo_of h = elim h.partner_repo [ none ↦ err quiet_refusal | some r ↦ ok r ]

  -- tryVerifyJWSPayload; an error stands for false.
  unfoldable pub try_verify_jws_payload : Handlers jose → String → String → Result JmdnReceipt
  try_verify_jws_payload h signer_id payload = do
    engine ← engine_of h
    lookup ← repo_of h
    refuse_if (is_empty signer_id) quiet_refusal
    partner ← lookup signer_id
    refuse_if (is_empty partner.public_key_jwks) quiet_refusal
    key ← parse_public_key_by_use jose partner.public_key_jwks "sig"
    verify_jmdn jose payload key

  -- A flat receipt is taken as it is: the check of its signature only writes to the log. A wrapped
  -- one is verified, or else read as JSON.
  unfoldable pub disposition_of : Handlers jose → Arrival → Shape → JmdnReceipt
  disposition_of h arrival (flat r) = r.receipt
  disposition_of h arrival (wrapped envelope) =
      elim (try_verify_jws_payload h envelope.routing.sender_id envelope.payload) [
        | ok receipt ↦ receipt
        | err e ↦ (decode_receipt (arrival.unquote envelope.payload)).0
      ]

module _ (driver : Driver) (arrival : Arrival) where
  unfoldable pub reconcile : Messages → JmdnReceipt → Messages
  reconcile t receipt =
      if is_empty receipt.original_message_id
      then t
      else (update_status arrival.update_fault t receipt.original_message_id
          (new_status receipt.status)).0

  -- The receipt's own row; a duplicate is logged, and the handler goes on.
  unfoldable pub store_receipt : Messages → Shape → Body → Messages × Option Error
  store_receipt t shape body =
      let (t', problem) =
        create driver arrival.now arrival.insert_fault t
          (draft (receipt_message_id shape) inbound delivered body arrival.now) in
      elim problem [
        | ok row ↦ (t', none)
        | err e ↦ elim e [ duplicate_message_id _ ↦ (t', none) | other ↦ (t', some other) ]
      ]

  module _ (jose : Jose) (h : Handlers jose) where
    unfoldable pub finish : Shape → Messages → Option Error → Messages × Reply
    finish shape t (some e) = (t, respond_with_error 500 "Failed to store receipt" e)
    finish shape t none = (reconcile t (disposition_of jose h arrival shape), accepted)

    unfoldable pub answer : Messages → Body → Reading → Messages × Reply
    answer t body (unreadable message e) = (t, respond_with_error 400 message e)
    answer t body (shaped shape) =
        let (t', problem) = store_receipt t shape body in finish shape t' problem

    unfoldable pub receipt_handler : Messages → Body → Messages × Reply
    receipt_handler t body = answer t body (shape_of arrival.decode_error body)
