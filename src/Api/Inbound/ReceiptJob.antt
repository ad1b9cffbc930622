-- ===== src/Api/Inbound/ReceiptJob.antt =====
-- internal/api/external_handlers.go: the J-MDN job that inboundHandler queues, as the worker of
-- internal/queue/worker.go reads it.
use fidex_go_node.Common.{
  String, true, none, some, ◌≡◌, ◌≢◌, inl, inr, arith, refl, eq_iff, eq_refl,
}
use fidex_go_node.Errors.{Result, ok}
use fidex_go_node.Json.{Body, json, decode, same_key, probe_job_type}
use fidex_go_node.Domain.{Message, MessageStatus, queued, inbound, outbound, job_type_send_jmdn}
use fidex_go_node.Crypto.{Jose}
use fidex_go_node.Wire.{FidexEnvelope, decode_jmdn_job}
use fidex_go_node.Store.{Driver}
use fidex_go_node.Store.Table.{find_row}
use fidex_go_node.Store.Table.Laws.{find_row-append}
use fidex_go_node.Store.Messages.{Messages, key_of, create, resolve_job_type}
use fidex_go_node.Store.Messages.Create.{stored, create_cases}
use fidex_go_node.Queue.{job_type_of}
use fidex_go_node.Api.{Handlers}
use fidex_go_node.Api.Inbound.{
  Arrival, Admission, admitted, draft, stored_payload, status_of, payload_of, encode_jmdn_job,
  queue_receipt, record_envelope, conclude, admit, store_envelope, inbound_handler,
}
use fidex_go_node.Api.Inbound.Admit.{IsRead, read_lem, conclude_accepted}

decode-encode_jmdn_job :
    (e : FidexEnvelope)
    → decode_jmdn_job (json (encode_jmdn_job e)) ≡ (
      record {
        job_type = job_type_send_jmdn;
        original_message_id = e.routing.message_id;
        recipient_partner_id = e.routing.sender_id;
        status = "processed";
        original_payload = e.payload;
      },
      true,
    )
unfolding decode_jmdn_job encode_jmdn_job decode same_key
decode-encode_jmdn_job e = refl

resolve_job :
    (e : FidexEnvelope) → resolve_job_type "" (json (encode_jmdn_job e)) ≡ job_type_send_jmdn
unfolding resolve_job_type probe_job_type encode_jmdn_job decode same_key
resolve_job e = refl

module _ (driver : Driver) (arrival : Arrival) (t : Messages) (envelope : FidexEnvelope) where
  abbrev job_row : Message
  job_row =
      stored arrival.now t
        (draft arrival.receipt_job_id outbound queued (json (encode_jmdn_job envelope)) arrival.now)

  -- The row that the job becomes.
  abbrev IsJobRow : Message → Type 0
  IsJobRow row =
      (row.status ≡ queued)
      × (row.direction ≡ outbound)
      × (job_type_of row ≡ job_type_send_jmdn)
      × (decode_jmdn_job row.payload ≡ (
        record {
          job_type = job_type_send_jmdn;
          original_message_id = envelope.routing.message_id;
          recipient_partner_id = envelope.routing.sender_id;
          status = "processed";
          original_payload = envelope.payload;
        },
        true,
      ))

  queue_receipt_job :
      arrival.receipt_fault ≡ none
      → arrival.receipt_job_id ≢ ""
      → find_row key_of arrival.receipt_job_id t.rows ≡ none
      → (row : Message) × (find_row key_of arrival.receipt_job_id
            (queue_receipt driver arrival t envelope).rows
          ≡ some row)
        × IsJobRow row
  unfolding queue_receipt create job_type_of
  queue_receipt_job quiet named free = (
    job_row,
    ground (
      arith,
      eq_iff arrival.receipt_job_id "",
      eq_refl arrival.receipt_job_id,
      find_row-append key_of arrival.receipt_job_id t.rows job_row free,
    ),
    (refl, refl, rw (resolve_job envelope) refl, decode-encode_jmdn_job envelope),
  )

module _ (driver : Driver) (arrival : Arrival) (t : Messages) (envelope : FidexEnvelope) where
  record_keeps_free :
      (key : String) (status : MessageStatus) (payload : Body)
      → key ≢ envelope.routing.message_id
      → find_row key_of key t.rows ≡ none
      → find_row key_of key (record_envelope driver arrival t envelope status payload).0.rows ≡ none
  unfolding record_envelope
  record_keeps_free key status payload apart free =
      let m =
        draft envelope.routing.message_id inbound status (stored_payload envelope payload)
          arrival.now in
      elim (create_cases driver arrival.now arrival.message_fault t m) [
        | inr (same, _) ↦ rw same free
        | inl (same, _, _, _, _) ↦ ground (
          arith,
          same,
          find_row-append key_of key t.rows (stored arrival.now t m) free,
          eq_iff envelope.routing.message_id key,
        )
      ]

  conclude_queues :
      (a : Admission) (problem : Result Message) (document : Body) (row : Message)
      → a ≡ admitted document
      → problem ≡ ok row
      → envelope.routing.document_type ≢ "receipt"
      → (conclude driver arrival envelope a t problem).0 ≡ queue_receipt driver arrival t envelope
  unfolding conclude
  conclude_queues a problem document row is done business =
      rw (is, done) (ground (arith, eq_iff envelope.routing.document_type "receipt"))

module _ (driver : Driver) (arrival : Arrival) (jose : Jose) (h : Handlers jose) (t : Messages)
    (body : Body) (envelope : FidexEnvelope) where
  -- A posted envelope that is answered with 202 and is no receipt leaves, when the database reports
  -- no fault at the job and the job's new id is free and not the envelope's own, a QUEUED outbound
  -- row under that id that the worker takes for a J-MDN job: about the envelope's message_id and
  -- payload, for its sender, with the status `processed`.
  pub inbound_handler-job :
      IsRead driver arrival jose h t body envelope
      → (inbound_handler driver arrival jose h t body).1.status ≡ 202
      → envelope.routing.document_type ≢ "receipt"
      → arrival.receipt_fault ≡ none
      → arrival.receipt_job_id ≢ ""
      → arrival.receipt_job_id ≢ envelope.routing.message_id
      → find_row key_of arrival.receipt_job_id t.rows ≡ none
      → (row : Message) × (find_row key_of arrival.receipt_job_id
            (inbound_handler driver arrival jose h t body).0.rows
          ≡ some row)
        × (row.status ≡ queued)
        × (row.direction ≡ outbound)
        × (job_type_of row ≡ job_type_send_jmdn)
        × (decode_jmdn_job row.payload ≡ (
          record {
            job_type = job_type_send_jmdn;
            original_message_id = envelope.routing.message_id;
            recipient_partner_id = envelope.routing.sender_id;
            status = "processed";
            original_payload = envelope.payload;
          },
          true,
        ))
  unfolding store_envelope
  inbound_handler-job read s business quiet named apart free =
      let same = read_lem driver arrival jose h t body envelope read in
      let a = admit jose h envelope in
      let recorded = record_envelope driver arrival t envelope (status_of a) (payload_of a) in
      let (document, row, is, done) =
        conclude_accepted driver arrival envelope a recorded.0 recorded.1 (rw same at s) in
      let still_free =
        record_keeps_free driver arrival t envelope arrival.receipt_job_id (status_of a)
          (payload_of a) apart free in
      let table =
        conclude_queues driver arrival recorded.0 envelope a recorded.1 document row is done
          business in
      let (job, there, (waits, goes_out, kind, read)) =
        queue_receipt_job driver arrival recorded.0 envelope quiet named still_free in
      rw (same, table) (job, there, waits, goes_out, kind, read)
