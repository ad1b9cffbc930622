-- ===== src/Api/Inbound/Laws.antt =====
-- internal/api/external_handlers.go: what inboundHandler does to the table on its branches.
use fidex_go_node.Common.{
  false, none, [], ◌∷◌, ◌≡◌, ◌≢◌, ◌==◌, inl, inr, arith, eq_iff, Bool-cases, Option-cases, sprint,
  quote,
}
use fidex_go_node.Errors.{duplicate_message_id, Result, ok, err}
use fidex_go_node.Json.{Body, is_empty_body}
use fidex_go_node.Domain.{Message, MessageStatus, inbound}
use fidex_go_node.Crypto.{Jose}
use fidex_go_node.Wire.{FidexEnvelope}
use fidex_go_node.Store.{Driver}
use fidex_go_node.Store.Table.{find_row}
use fidex_go_node.Store.Messages.{Messages, key_of, create}
use fidex_go_node.Store.Messages.Rows.{IsValid}
use fidex_go_node.Store.Messages.Create.{create-IsValid, stored, appended}
use fidex_go_node.Api.{decode_envelope, validate_fidex_envelope, Handlers}
use fidex_go_node.Api.Inbound.{
  Admission, admitted, refused, Arrival, draft, stored_payload, queue_receipt, record_envelope,
  store_envelope, conclude, inbound_handler,
}

stored_payload_full :
    (envelope : FidexEnvelope) (payload : Body)
    → is_empty_body (stored_payload envelope payload) ≡ false
unfolding stored_payload
stored_payload_full envelope payload = ground arith

pub validate_named :
    (envelope : FidexEnvelope)
    → validate_fidex_envelope envelope ≡ none
    → envelope.routing.message_id ≢ ""
unfolding validate_fidex_envelope
validate_named envelope h = ground (arith, eq_iff envelope.routing.message_id "")

-- The row that is written for an envelope.
abbrev pub row_of : Arrival → Messages → FidexEnvelope → MessageStatus → Body → Message
row_of arrival t envelope status payload =
    stored arrival.now t (
      draft envelope.routing.message_id inbound status (stored_payload envelope payload)
        arrival.now)

module _ (driver : Driver) (arrival : Arrival) where
  record_envelope-IsValid :
      (t : Messages) (envelope : FidexEnvelope) (status : MessageStatus) (payload : Body)
      → IsValid t
      → IsValid (record_envelope driver arrival t envelope status payload).0
  unfolding record_envelope
  record_envelope-IsValid t envelope status payload v =
      create-IsValid driver arrival.now arrival.message_fault t _ v

  queue_receipt-IsValid :
      (t : Messages) (envelope : FidexEnvelope)
      → IsValid t
      → IsValid (queue_receipt driver arrival t envelope)
  unfolding queue_receipt
  queue_receipt-IsValid t envelope v = create-IsValid driver arrival.now arrival.receipt_fault t _ v

  conclude-IsValid :
      (envelope : FidexEnvelope) (a : Admission) (t : Messages) (problem : Result Message)
      → IsValid t
      → IsValid (conclude driver arrival envelope a t problem).0
  unfolding conclude
  conclude-IsValid envelope a t (err e) v = v
  conclude-IsValid envelope (refused r) t (ok row) v = v
  conclude-IsValid envelope (admitted payload) t (ok row) v =
      elim (Bool-cases (envelope.routing.document_type == "receipt")) [
        | inl b ↦ rw b v
        | inr b ↦ rw b (queue_receipt-IsValid t envelope v)
      ]

  store_envelope-IsValid :
      (t : Messages) (envelope : FidexEnvelope) (a : Admission)
      → IsValid t
      → IsValid (store_envelope driver arrival t envelope a).0
  unfolding store_envelope
  store_envelope-IsValid t envelope a v =
      conclude-IsValid envelope a _ _ (record_envelope-IsValid t envelope _ _ v)

  module _ (jose : Jose) (h : Handlers jose) (t : Messages) (body : Body) where
    -- Whatever is posted and whatever the services and the database answer, the handler keeps the
    -- table of messages well-formed.
    pub inbound_handler-IsValid :
        IsValid t → IsValid (inbound_handler driver arrival jose h t body).0
    unfolding inbound_handler
    inbound_handler-IsValid v = elim (Bool-cases (decode_envelope body).1) [
      | inr e ↦ rw e v
      | inl e ↦ elim (Option-cases (validate_fidex_envelope (decode_envelope body).0)) [
        | inl f ↦ rw (e, f) (store_envelope-IsValid t _ _ v)
        | inr (x, f) ↦ rw (e, f) v
      ]
    ]

  module _ (t : Messages) (envelope : FidexEnvelope) (named : envelope.routing.message_id ≢ "")
      (quiet : arrival.message_fault ≡ none) where
    pub record_fresh :
        (status : MessageStatus) (payload : Body)
        → find_row key_of envelope.routing.message_id t.rows ≡ none
        → record_envelope driver arrival t envelope status payload ≡ (
          appended t (row_of arrival t envelope status payload),
          ok (row_of arrival t envelope status payload),
        )
    unfolding record_envelope create
    record_fresh status payload f =
        ground (arith, stored_payload_full envelope payload, eq_iff envelope.routing.message_id "")

    pub record_taken :
        (status : MessageStatus) (payload : Body)
        → find_row key_of envelope.routing.message_id t.rows ≢ none
        → record_envelope driver arrival t envelope status payload ≡ (
          t,
          err (
              duplicate_message_id (
                sprint (
                  "message_id "
                  ∷ quote envelope.routing.message_id
                  ∷ " already exists: duplicate message_id"
                  ∷ []))),
        )
    unfolding record_envelope create
    record_taken status payload f = ground (
      arith,
      stored_payload_full envelope payload,
      eq_iff envelope.routing.message_id "",
      driver.unique_error_reported,
    )
