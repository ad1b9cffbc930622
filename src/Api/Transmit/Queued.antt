-- ===== src/Api/Transmit/Queued.antt =====
-- internal/api/internal_handlers.go: what transmitHandler puts into the queue, as the worker of
-- internal/queue/worker.go reads it.
use fidex_go_node.Common.{
  Bool, true, none, some, ◌≡◌, ◌≢◌, inl, inr, arith, refl, eq_iff, Bool-cases, is_empty,
}
use fidex_go_node.Errors.{ok}
use fidex_go_node.Json.{Fields, object, Body, json, decode, same_key, probe_job_type}
use fidex_go_node.Domain.{Message, queued, outbound, job_type_process_outbound}
use fidex_go_node.Wire.{decode_queued}
use fidex_go_node.Store.{Driver}
use fidex_go_node.Store.Table.{find_row}
use fidex_go_node.Store.Messages.{Messages, key_of, create, resolve_job_type}
use fidex_go_node.Store.Messages.Create.{stored, appended}
use fidex_go_node.Queue.{job_type_of}
use fidex_go_node.Api.Inbound.{draft}
use fidex_go_node.Api.Transmit.{
  TransmitRequest, Arrival, decode_transmit, validate_transmit_request, encode_transmit,
  encode_response, queue_request, transmit_handler,
}

decode-encode_transmit :
    (r : TransmitRequest) (fields : Fields)
    → decode_queued (json (encode_transmit r fields)) ≡ (
      record {
        destination_partner_id = r.destination_partner_id;
        document_type = r.document_type;
        receipt_webhook = r.receipt_webhook;
        payload = some (object fields);
      },
      true,
    )
unfolding decode_queued encode_transmit decode same_key
decode-encode_transmit r fields = ground (arith, eq_iff r.receipt_webhook "")

-- What the handler decodes of a body in the form in which encoding/json writes a request.
abbrev pub sent : Arrival → TransmitRequest → Fields → TransmitRequest × Bool
sent arrival asked given =
    let (kept, fits) = arrival.through_map none given in
    (record asked { payload = some kept }, fits)

decode_transmit-encode_transmit :
    (arrival : Arrival) (asked : TransmitRequest) (given : Fields)
    → decode_transmit arrival (json (encode_transmit asked given)) ≡ sent arrival asked given
unfolding decode_transmit encode_transmit decode same_key
decode_transmit-encode_transmit arrival asked given =
    ground (arith, eq_iff asked.receipt_webhook "", Bool-cases (arrival.through_map none given).1)

probe_transmit :
    (r : TransmitRequest) (fields : Fields)
    → probe_job_type (json (encode_transmit r fields)) ≡ ("", true)
unfolding encode_transmit probe_job_type decode same_key
probe_transmit r fields = elim (Bool-cases (is_empty r.receipt_webhook)) [
  | inl e ↦ rw e refl
  | inr e ↦ rw e refl
]

resolve_transmit :
    (r : TransmitRequest) (fields : Fields)
    → resolve_job_type "" (json (encode_transmit r fields)) ≡ job_type_process_outbound
unfolding resolve_job_type
resolve_transmit r fields = rw (probe_transmit r fields) refl

module _ (driver : Driver) (arrival : Arrival) (t : Messages) (body : Body) (r : TransmitRequest)
    (fields : Fields) where
  abbrev pub queued_row : Message
  queued_row =
      stored arrival.now t
        (draft arrival.uuid outbound queued (json (encode_transmit r fields)) arrival.now)

  -- When the database reports no fault and the new message_id is free, a valid request of the ERP
  -- is answered with 202 and becomes one QUEUED outbound row under the new message_id; the worker
  -- takes it for a business document, and reads from it the partner, the document type and the
  -- webhook that were decoded from the request, and the payload as encoding/json marshals the map
  -- that it decoded the request's payload into. Of a body in the form in which encoding/json writes
  -- a request, these are that request's partner, document type and webhook, and its payload read
  -- into a new map.
  pub transmit_handler_queued :
      decode_transmit arrival body ≡ (r, true)
      → validate_transmit_request r ≡ ok fields
      → arrival.insert_fault ≡ none
      → arrival.uuid ≢ ""
      → find_row key_of arrival.uuid t.rows ≡ none
      → (transmit_handler driver arrival t body ≡ (
        appended t queued_row,
        record { status = 202; body = some (encode_response arrival.uuid) },
      ))
        × (job_type_of queued_row ≡ job_type_process_outbound)
        × (decode_queued queued_row.payload ≡ (
          record {
            destination_partner_id = r.destination_partner_id;
            document_type = r.document_type;
            receipt_webhook = r.receipt_webhook;
            payload = some (object fields);
          },
          true,
        ))
        × ((asked : TransmitRequest) (given : Fields)
            → body ≡ json (encode_transmit asked given)
            → sent arrival asked given ≡ (r, true))
  unfolding transmit_handler queue_request create job_type_of
  transmit_handler_queued d v quiet named fresh = (
    ground (arith, eq_iff arrival.uuid ""),
    rw (resolve_transmit r fields) refl,
    decode-encode_transmit r fields,
    λ asked given written. (rw (written, decode_transmit-encode_transmit arrival asked given) at d),
  )
