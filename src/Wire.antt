-- ===== src/Wire.antt =====
-- The JSON documents that the node queues and sends: those of internal/queue/worker.go, and the
-- envelope of internal/crypto/as5_engine.go and internal/api/types.go, which has the same members.
use fidex_go_node.Common.{String, Bool, true, Option, none, some, [], ◌∷◌}
use fidex_go_node.Json.{
  Json, text, object, end, field, Body, text_member, decode, text_unless_empty,
}

-- queuedOutboundPayload; a RawMessage is the value that it spells, none where it is empty.
pub record QueuedPayload : Type 0 where
  pub destination_partner_id : String
  pub document_type : String
  pub receipt_webhook : String
  pub payload : Option Json

unfoldable pub decode_queued : Body → QueuedPayload × Bool
decode_queued body =
    decode
      (text_member "destination_partner_id" (λ t q. record q { destination_partner_id = t })
        ∷ text_member "document_type" (λ t q. record q { document_type = t })
        ∷ text_member "receipt_webhook" (λ t q. record q { receipt_webhook = t })
        ∷ record { key = "payload"; put = λ v q. (record q { payload = some v }, true) }
        ∷ [])
      body
      (record {
        destination_partner_id = "";
        document_type = "";
        receipt_webhook = "";
        payload = none;
      })

pub record JmdnJob : Type 0 where
  pub job_type : String
  pub original_message_id : String
  pub recipient_partner_id : String
  pub status : String
  pub original_payload : String

unfoldable pub decode_jmdn_job : Body → JmdnJob × Bool
decode_jmdn_job body =
    decode
      (text_member "job_type" (λ t j. record j { job_type = t })
        ∷ text_member "original_message_id" (λ t j. record j { original_message_id = t })
        ∷ text_member "recipient_partner_id" (λ t j. record j { recipient_partner_id = t })
        ∷ text_member "status" (λ t j. record j { status = t })
        ∷ text_member "original_payload" (λ t j. record j { original_payload = t })
        ∷ [])
      body
      (record {
        job_type = "";
        original_message_id = "";
        recipient_partner_id = "";
        status = "";
        original_payload = "";
      })

-- The routing header and the envelope of internal/crypto, and their JSON.
pub record RoutingHeader : Type 0 where
  pub fidex_version : String
  pub message_id : String
  pub sender_id : String
  pub receiver_id : String
  pub document_type : String
  pub timestamp : String
  pub receipt_webhook : String

pub record FidexEnvelope : Type 0 where
  pub routing : RoutingHeader
  pub payload : String

unfoldable pub encode_envelope : FidexEnvelope → Json
encode_envelope e =
    let r = e.routing in
    object (
      field "routing_header"
        (object (
          field "fidex_version" (text r.fidex_version) (
            field "message_id" (text r.message_id) (
              field "sender_id" (text r.sender_id) (
                field "receiver_id" (text r.receiver_id) (
                  text_unless_empty "document_type" r.document_type (
                    field "timestamp" (text r.timestamp)
                      (text_unless_empty "receipt_webhook" r.receipt_webhook end))))))))
        (field "encrypted_payload" (text e.payload) end))

-- jmdnReceiptBody; `error_log` is never set and left out.
pub record JmdnReceiptBody : Type 0 where
  pub original_message_id : String
  pub status : String
  pub receiver_id : String
  pub hash_verification : String
  pub timestamp : String
  pub signature : String

unfoldable pub encode_receipt_body : JmdnReceiptBody → Json
encode_receipt_body r = object (
    field "original_message_id" (text r.original_message_id) (
      field "status" (text r.status) (
        field "receiver_id" (text r.receiver_id) (
          field "hash_verification" (text r.hash_verification)
            (field "timestamp" (text r.timestamp) (field "signature" (text r.signature) end))))))
