-- ===== src/Queue/Deliver.antt =====
-- internal/queue/worker.go: what a delivery sends, and to whom.
use fidex_go_node.Common.{
  String, true, some, ◌≡◌, ◌≢◌, ◌==◌, inl, inr, arith, eq_iff, Bool-cases, Option-cases,
}
use fidex_go_node.Errors.{Result, ok, err, Result-cases}
use fidex_go_node.Json.{Json, json}
use fidex_go_node.Wire.{QueuedPayload, decode_queued, encode_envelope}
use fidex_go_node.Domain.{Message, Partner, job_type_process_outbound, job_type_send_jmdn}
use fidex_go_node.Crypto.{Jose, Engine, sign_and_encrypt_with_alg}
use fidex_go_node.Crypto.Keys.{parse_public_key_by_use}
use fidex_go_node.Crypto.Negotiate.{negotiate, local_supported}
use fidex_go_node.Queue.{
  HttpRequest, Moment, transmit, job_type_of, Worker, envelope_of, business_request,
  deliver_business_document, deliver_message,
}

module _ (jose : Jose) (w : Worker jose) (moment : Moment) (msg : Message) where
  -- A request that carries the document of a queued message to the endpoint of its partner: signed
  -- by the node, and encrypted for the partner's key with an algorithm that both support.
  pub record IsSealedFor (request : HttpRequest) : Type 0 where
    pub queued_payload : QueuedPayload
    pub document : Json
    pub partner : Partner
    pub key : jose.PublicKey
    pub engine : Engine jose
    pub alg : String
    pub jwe : String
    pub read : decode_queued msg.payload ≡ (queued_payload, true)
    pub carries : queued_payload.payload ≡ some document
    pub known : moment.lookup queued_payload.destination_partner_id ≡ ok partner
    pub encryption_key : parse_public_key_by_use jose partner.public_key_jwks "enc" ≡ ok key
    pub configured : w.engine ≡ some engine
    pub agreed : negotiate local_supported partner.supported_encryption_algorithms ≡ ok alg
    pub sealed :
        sign_and_encrypt_with_alg jose engine moment.entropy (json document) key alg ≡ ok jwe
    pub addressed : request.url ≡ partner.message_endpoint
    pub enveloped :
        request.body ≡ encode_envelope (envelope_of jose w moment msg queued_payload jwe)

  -- Every request that a business document leads to is sealed for the partner that the queued
  -- payload names.
  business_request_sound :
      (request : HttpRequest)
      → business_request jose w moment msg ≡ ok request
      → IsSealedFor request
  unfolding business_request
  business_request_sound request h =
      let q = (decode_queued msg.payload).0 in
      elim (Option-cases q.payload) [
        | inl a ↦ ground arith
        | inr (document, a) ↦ elim (Result-cases (moment.lookup q.destination_partner_id)) [
          | inr (e, b) ↦ ground arith
          | inl (partner, b) ↦
              elim (Result-cases (parse_public_key_by_use jose partner.public_key_jwks "enc")) [
                | inr (e, c) ↦ ground arith
                | inl (key, c) ↦ elim (Option-cases w.engine) [
                  | inl d ↦ ground arith
                  | inr (engine, d) ↦
                      elim (Result-cases
                        (negotiate local_supported partner.supported_encryption_algorithms)) [
                          | inr (e, f) ↦ ground arith
                          | inl (alg, f) ↦
                              elim (Result-cases (
                                sign_and_encrypt_with_alg jose engine moment.entropy (json document)
                                  key alg)) [
                                    | inr (e, g) ↦ ground arith
                                    | inl (jwe, g) ↦ record {
                                      queued_payload = q;
                                      document = document;
                                      partner = partner;
                                      key = key;
                                      engine = engine;
                                      alg = alg;
                                      jwe = jwe;
                                      read = ground arith;
                                      carries = a;
                                      known = b;
                                      encryption_key = c;
                                      configured = d;
                                      agreed = f;
                                      sealed = g;
                                      addressed = ground arith;
                                      enveloped = ground arith;
                                    }
                                  ]
                        ]
                ]
              ]
        ]
      ]

  transmit_sent :
      (operation on : String) (made : Result HttpRequest) (request : HttpRequest)
      → (transmit moment operation on made).sent ≡ some request
      → made ≡ ok request
  unfolding transmit
  transmit_sent operation on (ok r) request h = ground arith
  transmit_sent operation on (err e) request h = ground arith

  -- Unless its job is to send a J-MDN, a message leaves the node only as a request that is sealed for
  -- its partner.
  pub deliver_message_sealed :
      (request : HttpRequest)
      → job_type_of msg ≢ job_type_send_jmdn
      → (deliver_message jose w moment msg).sent ≡ some request
      → IsSealedFor request
  unfolding deliver_message deliver_business_document
  deliver_message_sealed request other h =
      let is_jmdn = eq_iff (job_type_of msg) job_type_send_jmdn in
      elim (Bool-cases (job_type_of msg == job_type_process_outbound)) [
        | inl b ↦ business_request_sound request (
            transmit_sent "message delivery" "" (business_request jose w moment msg) request
              (ground arith))
        | inr b ↦ ground arith
      ]
