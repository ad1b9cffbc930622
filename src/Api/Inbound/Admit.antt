-- ===== src/Api/Inbound/Admit.antt =====
-- internal/api/external_handlers.go: which envelopes inboundHandler accepts, quarantines and refuses.
use fidex_go_node.Common.{
  String, true, none, some, ◌≡◌, ◌≢◌, ◌==◌, inl, inr, arith, refl, eq_refl, Bool-cases, is_empty,
}
use fidex_go_node.Errors.{Result, ok, err, Result-cases}
use fidex_go_node.Json.{Body, json}
use fidex_go_node.Domain.{Message, MessageStatus, Partner, queued, delivered, inbound, outbound}
use fidex_go_node.Crypto.{Jose, Engine, decrypt_and_verify}
use fidex_go_node.Crypto.Keys.{parse_public_key_by_use}
use fidex_go_node.Wire.{FidexEnvelope}
use fidex_go_node.Store.{Driver}
use fidex_go_node.Store.Table.{find_row}
use fidex_go_node.Store.Table.Laws.{find_row-append_found, find_row-append}
use fidex_go_node.Store.Messages.{Messages, key_of}
use fidex_go_node.Store.Messages.Create.{create_cases, stored}
use fidex_go_node.Api.{respond_with_error, decode_envelope, validate_fidex_envelope, Handlers}
use fidex_go_node.Api.Inbound.{
  write_inbound_rejection, Admission, admitted, refused, status_of, payload_of, Arrival, rejected,
  open_envelope, admit_from, admit, queue_receipt, record_envelope, not_stored, store_envelope,
  conclude, stored_payload, inbound_handler, draft, encode_jmdn_job,
}
use fidex_go_node.Api.Inbound.Laws.{row_of, record_taken, validate_named}

module _ (driver : Driver) (arrival : Arrival) (jose : Jose) (h : Handlers jose) (t : Messages)
    (body : Body) (envelope : FidexEnvelope) where
  abbrev pub IsRead : Type 0
  IsRead = (decode_envelope body ≡ (envelope, true)) × (validate_fidex_envelope envelope ≡ none)

  pub read_lem :
      IsRead
      → inbound_handler driver arrival jose h t body
        ≡ store_envelope driver arrival t envelope (admit jose h envelope)
  unfolding inbound_handler
  read_lem (d, v) = ground arith

  pub accepted_IsRead :
      (inbound_handler driver arrival jose h t body).1.status ≡ 202
      → ((decode_envelope body).1 ≡ true)
        × (validate_fidex_envelope (decode_envelope body).0 ≡ none)
  unfolding inbound_handler write_inbound_rejection
  accepted_IsRead s = (ground arith, ground arith)

  -- A valid envelope whose message_id is in the table is answered with 409 when the database
  -- reports no fault, and the table stays as it is, whatever else the envelope holds and whoever
  -- sent it.
  pub inbound_replay :
      IsRead
      → arrival.message_fault ≡ none
      → find_row key_of envelope.routing.message_id t.rows ≢ none
      → inbound_handler driver arrival jose h t body ≡ (
        t,
        write_inbound_rejection 409
            (rejected envelope "DUPLICATE_MESSAGE" "message_id has already been received"),
      )
  unfolding store_envelope conclude not_stored
  inbound_replay (d, v) quiet taken =
      rw
        (
          read_lem (d, v),
          record_taken driver arrival t envelope (validate_named envelope v) quiet _ _ taken,
        )
        refl

module _ (driver : Driver) (arrival : Arrival) where
  pub record_ok :
      (t : Messages) (envelope : FidexEnvelope) (status : MessageStatus) (payload : Body)
      (row : Message)
      → (record_envelope driver arrival t envelope status payload).1 ≡ ok row
      → (find_row key_of envelope.routing.message_id t.rows ≡ none)
        × (find_row key_of envelope.routing.message_id
              (record_envelope driver arrival t envelope status payload).0.rows
            ≡ some (row_of arrival t envelope status payload))
  unfolding record_envelope
  record_ok t envelope status payload row h =
      let m =
        draft envelope.routing.message_id inbound status (stored_payload envelope payload)
          arrival.now in
      elim (create_cases driver arrival.now arrival.message_fault t m) [
        | inl (same, _, absent, _, _) ↦ (
          absent,
          ground (
            arith,
            same,
            eq_refl envelope.routing.message_id,
            find_row-append key_of envelope.routing.message_id t.rows (stored arrival.now t m)
                absent,
          ),
        )
        | inr (same, bad) ↦ ground (arith, same, bad)
      ]

  -- The effect of an answer of 202 after the envelope was recorded.
  pub conclude_accepted :
      (envelope : FidexEnvelope) (a : Admission) (t : Messages) (problem : Result Message)
      → (conclude driver arrival envelope a t problem).1.status ≡ 202
      → (document : Body) × (row : Message) × (a ≡ admitted document) × (problem ≡ ok row)
  unfolding conclude not_stored respond_with_error write_inbound_rejection
  conclude_accepted envelope a t (err e) s = ground arith
  conclude_accepted envelope (refused r) t (ok row) s = ground arith
  conclude_accepted envelope (admitted document) t (ok row) s = (document, row, refl, refl)

  -- The jobs that are queued after a row do not hide it.
  pub conclude_keeps :
      (envelope : FidexEnvelope) (a : Admission) (t : Messages) (problem : Result Message)
      (key : String) (row : Message)
      → find_row key_of key t.rows ≡ some row
      → find_row key_of key (conclude driver arrival envelope a t problem).0.rows ≡ some row
  unfolding conclude queue_receipt
  conclude_keeps envelope a t (err e) key row f = f
  conclude_keeps envelope (refused r) t (ok m) key row f = f
  conclude_keeps envelope (admitted document) t (ok m) key row f =
      let job =
        draft arrival.receipt_job_id outbound queued (json (encode_jmdn_job envelope))
          arrival.now in
      elim (Bool-cases (envelope.routing.document_type == "receipt")) [
        | inl b ↦ rw b f
        | inr b ↦ elim (create_cases driver arrival.now arrival.receipt_fault t job) [
          | inl (same, _, _, _, _) ↦
              rw (b, same)
                (find_row-append_found key_of key t.rows (stored arrival.now t job) row f)
          | inr (same, _) ↦ rw (b, same) f
        ]
      ]

module _ (jose : Jose) (engine : Engine jose) (lookup : String → Result Partner) where
  -- An envelope whose payload was opened by the node's key and verified under the signing key that
  -- is stored for its sender.
  pub record IsGenuine (envelope : FidexEnvelope) (document : Body) : Type 0 where
    pub partner : Partner
    pub key : jose.PublicKey
    pub known : lookup envelope.routing.sender_id ≡ ok partner
    pub signing_key : parse_public_key_by_use jose partner.public_key_jwks "sig" ≡ ok key
    pub opened : decrypt_and_verify jose engine envelope.payload key ≡ ok document

  abbrev pub services : Handlers jose
  services = record { crypto_service = some engine; partner_repo = some lookup }

  open_envelope_sound :
      (partner : Partner) (envelope : FidexEnvelope) (document : Body)
      → open_envelope jose engine partner envelope ≡ admitted document
      → (key : jose.PublicKey) × (parse_public_key_by_use jose partner.public_key_jwks "sig"
          ≡ ok key)
        × (decrypt_and_verify jose engine envelope.payload key ≡ ok document)
  unfolding open_envelope
  open_envelope_sound partner envelope document a =
      elim (Result-cases (parse_public_key_by_use jose partner.public_key_jwks "sig")) [
        | inr (e, x) ↦ ground arith
        | inl (key, x) ↦ elim (Result-cases (decrypt_and_verify jose engine envelope.payload key)) [
          | inr (e, y) ↦ ground arith
          | inl (d, y) ↦ (key, x, ground arith)
        ]
      ]

  admit_sound :
      (envelope : FidexEnvelope) (document : Body)
      → admit jose services envelope ≡ admitted document
      → IsGenuine envelope document
  unfolding admit admit_from
  admit_sound envelope document a = elim (Result-cases (lookup envelope.routing.sender_id)) [
    | inr (e, x) ↦ ground arith
    | inl (partner, x) ↦ elim (Bool-cases (is_empty partner.public_key_jwks)) [
      | inl y ↦ ground arith
      | inr y ↦
          let (key, k, o) = open_envelope_sound partner envelope document (ground arith) in
          record { partner = partner; key = key; known = x; signing_key = k; opened = o }
    ]
  ]

  module _ (driver : Driver) (arrival : Arrival) (t : Messages) (body : Body) where
    pub record Accepted (t' : Messages) : Type 0 where
      pub envelope : FidexEnvelope
      pub document : Body
      pub read : IsRead driver arrival jose services t body envelope
      pub genuine : IsGenuine envelope document
      pub fresh : find_row key_of envelope.routing.message_id t.rows ≡ none
      pub found :
          find_row key_of envelope.routing.message_id t'.rows
          ≡ some (row_of arrival t envelope delivered document)

    -- With a crypto service and a partner repository, an answer of 202 is given only where the posted
    -- body is a valid envelope, whose payload was opened and verified under the key of the sender
    -- that the body names, and whose message_id is new; its document, or the envelope where the
    -- document is empty, is then stored under that message_id, as a DELIVERED row.
    pub inbound-Accepted :
        (inbound_handler driver arrival jose services t body).1.status ≡ 202
        → Accepted (inbound_handler driver arrival jose services t body).0
    unfolding store_envelope
    inbound-Accepted s =
        let envelope = (decode_envelope body).0 in
        let (d, v) = accepted_IsRead driver arrival jose services t body envelope s in
        let same = read_lem driver arrival jose services t body envelope (ground arith, v) in
        let a = admit jose services envelope in
        let recorded = record_envelope driver arrival t envelope (status_of a) (payload_of a) in
        let (document, row, is, p) =
          conclude_accepted driver arrival envelope a recorded.0 recorded.1 (rw same at s) in
        let (absent, there) =
          record_ok driver arrival t envelope delivered document row (rw is at p) in
        record {
          envelope = envelope;
          document = document;
          read = (ground arith, v);
          genuine = admit_sound envelope document is;
          fresh = absent;
          found =
              rw (same, is)
                (conclude_keeps driver arrival envelope (admitted document) _ _
                  envelope.routing.message_id _ there);
        }
