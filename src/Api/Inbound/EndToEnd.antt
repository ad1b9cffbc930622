-- ===== src/Api/Inbound/EndToEnd.antt =====
-- internal/queue/worker.go and internal/api/external_handlers.go: one node's delivery, as the request
-- that another node's inbound handler receives.
use fidex_go_node.Common.{String, true, none, some, ◌≡◌, ◌≢◌, arith, refl, eq_iff}
use fidex_go_node.Errors.{Result, ok}
use fidex_go_node.Json.{Body, json, decode, same_key}
use fidex_go_node.Wire.{FidexEnvelope, encode_envelope}
use fidex_go_node.Domain.{Message, Partner, delivered, inbound}
use fidex_go_node.Crypto.{Jose, Engine}
use fidex_go_node.Crypto.Keys.{parse_public_key_by_use}
use fidex_go_node.Crypto.RoundTrip.{IsReliable, sign_and_encrypt-decrypt_and_verify}
use fidex_go_node.Store.{Driver}
use fidex_go_node.Store.Table.{find_row}
use fidex_go_node.Store.Messages.{Messages, key_of}
use fidex_go_node.Queue.{HttpRequest, Moment, Worker, envelope_of}
use fidex_go_node.Queue.Deliver.{IsSealedFor}
use fidex_go_node.Api.Inbound.{
  admitted, Arrival, admit, admit_from, open_envelope, stored_payload, inbound_handler,
  store_envelope, conclude,
}
use fidex_go_node.Api.Inbound.Laws.{row_of, record_fresh, validate_named}
use fidex_go_node.Api.Inbound.Admit.{services, read_lem, conclude_keeps, record_ok}
use fidex_go_node.Api.{decode_envelope, validate_fidex_envelope}

decode-encode_envelope :
    (e : FidexEnvelope) → decode_envelope (json (encode_envelope e)) ≡ (e, true)
unfolding decode_envelope encode_envelope decode same_key
decode-encode_envelope e =
    ground (arith, eq_iff e.routing.document_type "", eq_iff e.routing.receipt_webhook "")

accepted_status :
    (driver : Driver) (arrival : Arrival) (envelope : FidexEnvelope) (document : Body)
    (t : Messages) (row : Message)
    → (conclude driver arrival envelope (admitted document) t (ok row)).1.status ≡ 202
unfolding conclude
accepted_status driver arrival envelope document t row = ground arith

module _ (jose : Jose) (reliable : IsReliable jose) (sender : Worker jose) (moment : Moment)
    (msg : Message) (request : HttpRequest) (s : IsSealedFor jose sender moment msg request)
    (receiver : Engine jose) (lookup : String → Result Partner) where
  abbrev pub posted : FidexEnvelope
  posted = envelope_of jose sender moment msg s.queued_payload s.jwe

  -- The receiver holds the private half of the key that the document was sealed for, and has the
  -- sender registered under its node id with the sender's public signing key.
  pub record AreAcquainted : Type 0 where
    pub registration : Partner
    pub sealed_for_receiver : s.key ≡ jose.public receiver.private_key
    pub registered : lookup sender.node_id ≡ ok registration
    pub published : registration.public_key_jwks ≢ ""
    pub signing_key :
        parse_public_key_by_use jose registration.public_key_jwks "sig"
        ≡ ok (jose.public s.engine.private_key)

  admit_genuine :
      AreAcquainted → admit jose (services jose receiver lookup) posted ≡ admitted (json s.document)
  unfolding admit admit_from open_envelope
  admit_genuine a =
      let opened =
        sign_and_encrypt-decrypt_and_verify jose reliable s.engine receiver moment.entropy
          (json s.document) s.alg s.jwe (rw (← a.sealed_for_receiver) s.sealed) in
      ground (
        arith,
        opened,
        a.registered,
        a.published,
        a.signing_key,
        eq_iff a.registration.public_key_jwks "",
      )

  -- Given a crypto library that verifies what it signed and opens what it sealed: the sealed
  -- request of one node's worker, when its envelope is valid, is accepted with 202 by the inbound
  -- handler of an acquainted node whose table lacks the message_id and whose database reports no
  -- fault; it stores the very document that was queued, as a DELIVERED inbound row.
  pub deliver-inbound_handler :
      (driver : Driver) (arrival : Arrival) (t : Messages)
      → AreAcquainted
      → validate_fidex_envelope posted ≡ none
      → arrival.message_fault ≡ none
      → find_row key_of msg.message_id t.rows ≡ none
      → ((inbound_handler driver arrival jose
            (services jose receiver lookup)
            t
            (json request.body)).1.status
          ≡ 202)
        × (row : Message) × (find_row key_of msg.message_id
              (inbound_handler driver arrival jose
                (services jose receiver lookup)
                t
                (json request.body)).0.rows
            ≡ some row)
        × (row.payload ≡ json s.document)
        × (row.status ≡ delivered)
        × (row.direction ≡ inbound)
  unfolding store_envelope stored_payload
  deliver-inbound_handler driver arrival t a valid quiet fresh =
      let h = services jose receiver lookup in
      let same =
        read_lem driver arrival jose h t (json (encode_envelope posted)) posted
          (decode-encode_envelope posted, valid) in
      let stored_now =
        record_fresh driver arrival t posted (validate_named posted valid) quiet delivered
          (json s.document) fresh in
      let found =
        (record_ok driver arrival t posted delivered (json s.document)
          (row_of arrival t posted delivered (json s.document)) (rw stored_now refl)).1 in
      (
        rw (s.enveloped, same, admit_genuine a, stored_now)
            (accepted_status driver arrival posted (json s.document) _
              (row_of arrival t posted delivered (json s.document))),
        row_of arrival t posted delivered (json s.document),
        rw (s.enveloped, same, admit_genuine a)
            (conclude_keeps driver arrival posted (admitted (json s.document)) _ _ msg.message_id _
              found),
        refl,
        refl,
        refl,
      )
