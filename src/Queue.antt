-- ===== src/Queue.antt =====
-- internal/queue/worker.go: the delivery of one queued message, deliverMessage with the two paths.
pub mod Process
pub mod Deliver
use fidex_go_node.Common.{
  ℕ, String, Bool, not, Option, none, some, List, [], ◌∷◌, ◌==◌, ◌||◌, ◌&&◌, if◌then◌else◌,
  is_empty, sprint, quote, decimal, ltb, to_upper_is,
}
use fidex_go_node.Errors.{
  Error, plain, network_error, partner_not_found, validation_error, new, wrap, validation,
  internal_wrap, network, Result, ok, err, ◌>>=◌, ◌>>◌, refuse_if, map_error,
}
use fidex_go_node.Json.{Json, end, Body, json, decode, probe_job_type}
use fidex_go_node.Wire.{
  QueuedPayload, decode_queued, decode_jmdn_job, FidexEnvelope, encode_envelope, JmdnReceiptBody,
  encode_receipt_body,
}
use fidex_go_node.Domain.{Message, Partner, job_type_process_outbound, job_type_send_jmdn}
use fidex_go_node.Crypto.{Jose, Engine, sign_and_encrypt_with_alg, create_jmdn}
use fidex_go_node.Crypto.Keys.{parse_public_key_by_use}
use fidex_go_node.Crypto.Negotiate.{negotiate, local_supported}

pub record HttpRequest : Type 0 where
  pub url : String
  pub headers : List (String × String)
  pub body : Json

pub data HttpReply : Type 0 where
  unreachable : String → HttpReply
  responded : (status : ℕ) (body : String) → HttpReply

-- What the rest of the world does while one message is delivered: the clock with its two texts, the
-- partner repository, the randomness of the encryption, whether a URL can be requested, and the
-- answer to a request.
pub record Moment : Type 0 where
  pub now : ℕ
  pub timestamp : String
  pub rfc3339 : String
  pub lookup : String → Result Partner
  pub entropy : ℕ
  pub url_error : String → Option String
  pub post : HttpRequest → HttpReply

-- The outcome of a delivery: the request that was sent, if any, and the error, if any.
pub record Delivery : Type 0 where
  pub sent : Option HttpRequest
  pub problem : Option Error

abbrev is_success : ℕ → Bool
is_success status = not (ltb status 200) && ltb status 300

-- Send a request, with the words that the two paths use for a failure.
unfoldable pub transmit : Moment → String → String → Result HttpRequest → Delivery
transmit moment operation on (err e) = record { sent = none; problem = some e }
transmit moment operation on (ok request) = record {
  sent = some request;
  problem = elim (moment.post request) [
    | unreachable e ↦ some (network (plain e) operation)
    | responded status body ↦
        if is_success status
        then none
        else some (
            new network_error
              (sprint ("partner returned status " ∷ decimal status ∷ on ∷ ": " ∷ body ∷ [])))
  ];
}

-- The column's job type; an empty one is looked up in the payload.
unfoldable pub job_type_of : Message → String
job_type_of msg =
    if is_empty msg.job_type
    then (let t = (probe_job_type msg.payload).0 in
        if is_empty t then job_type_process_outbound else t)
    else msg.job_type

unfoldable pub disposition : String → String
disposition status = if to_upper_is status "FAILED" then "FAILED" else "DELIVERED"

module _ (jose : Jose) where
  -- A worker; its crypto engine may be nil.
  pub record Worker : Type 0 where
    pub engine : Option (Engine jose)
    pub node_id : String
    pub max_retries : ℕ

  abbrev no_engine : Error
  no_engine = validation "crypto engine not configured on worker"

  abbrev engine_of : Worker → Result (Engine jose)
  engine_of w = elim w.engine [ none ↦ err no_engine | some e ↦ ok e ]

  abbrev document_of : QueuedPayload → Result Json
  document_of q = elim q.payload [
    | none ↦ err (validation "payload (business document) is empty")
    | some v ↦ ok v
  ]

  abbrev request_to : Moment → String → String → HttpRequest → Result HttpRequest
  request_to moment what url request = elim (moment.url_error url) [
    | none ↦ ok request
    | some e ↦ err (internal_wrap (plain e) what)
  ]

  abbrev pub envelope_of : Worker → Moment → Message → QueuedPayload → String → FidexEnvelope
  envelope_of w moment msg q jwe = record {
    routing = record {
      fidex_version = "1.0";
      message_id = msg.message_id;
      sender_id = w.node_id;
      receiver_id = q.destination_partner_id;
      document_type = q.document_type;
      timestamp = moment.timestamp;
      receipt_webhook = q.receipt_webhook;
    };
    payload = jwe;
  }

  abbrev common_headers : Worker → Message → List (String × String)
  common_headers w msg =
      ("Content-Type", "application/json")
      ∷ ("User-Agent", "FideX-Node/1.0")
      ∷ ("X-FideX-Message-ID", msg.message_id)
      ∷ ("X-FideX-Sender", w.node_id)
      ∷ []

  -- deliverBusinessDocument up to the request that it sends.
  unfoldable pub business_request : Worker → Moment → Message → Result HttpRequest
  business_request w moment msg = do
    let (q, fits) = decode_queued msg.payload
    refuse_if (not fits) (validation "invalid queued payload format")
    refuse_if (is_empty q.destination_partner_id) (validation "destination_partner_id is empty")
    doc ← document_of q
    partner ←
        map_error
          (λ e.
            wrap e partner_not_found
              (sprint ("partner " ∷ q.destination_partner_id ∷ " not found" ∷ [])))
          (moment.lookup q.destination_partner_id)
    refuse_if (is_empty partner.message_endpoint)
        (validation "partner has no message endpoint configured")
    refuse_if (is_empty partner.public_key_jwks)
        (validation "partner has no cached JWKS — cannot encrypt envelope")
    enc_key ←
        map_error
          (λ e. wrap e validation_error "failed to parse partner encryption key from cached JWKS")
          (parse_public_key_by_use jose partner.public_key_jwks "enc")
    engine ← engine_of w
    alg ←
        map_error
          (λ e. wrap e validation_error "failed to negotiate encryption algorithm with partner")
          (negotiate local_supported partner.supported_encryption_algorithms)
    jwe ←
        map_error (λ e. internal_wrap e "failed to sign+encrypt business document")
          (sign_and_encrypt_with_alg jose engine moment.entropy (json doc) enc_key alg)
    request_to moment "failed to create HTTP request" partner.message_endpoint (record {
      url = partner.message_endpoint;
      headers = common_headers w msg;
      body = encode_envelope (envelope_of w moment msg q jwe);
    })

  abbrev receipt_url : Partner → Result String
  receipt_url partner =
      if is_empty partner.mdn_receipt_endpoint
      then (if is_empty partner.message_endpoint
          then err (validation "partner has no receipt endpoint configured")
          else ok partner.message_endpoint)
      else ok partner.mdn_receipt_endpoint

  abbrev unsigned : Worker → Moment → String → String → String → JmdnReceiptBody
  unsigned w moment original status payload = record {
    original_message_id = original;
    status = status;
    receiver_id = w.node_id;
    hash_verification = sprint ("sha256:" ∷ jose.digest_hex payload ∷ []);
    timestamp = moment.timestamp;
    signature = "";
  }

  -- A receipt that cannot be signed is sent with an empty signature.
  unfoldable pub build_jmdn :
      Worker → Engine jose → Moment → String → String → String → JmdnReceiptBody
  build_jmdn w engine moment original status payload =
      let receipt = unsigned w moment original status payload in
      elim (create_jmdn jose engine moment.rfc3339 original status
        (json (encode_receipt_body receipt)) none) [
          | ok jws ↦ record receipt { signature = jws }
          | err e ↦ receipt
        ]

  -- deliverJMDN up to the request that it sends.
  unfoldable pub jmdn_request : Worker → Moment → Message → Result HttpRequest
  jmdn_request w moment msg = do
    let (job, fits) = decode_jmdn_job msg.payload
    refuse_if (not fits) (validation "invalid send_jmdn job payload")
    refuse_if (is_empty job.original_message_id)
        (validation "send_jmdn job has empty original_message_id")
    refuse_if (is_empty job.recipient_partner_id)
        (validation "send_jmdn job has empty recipient_partner_id")
    engine ← engine_of w
    partner ←
        map_error
          (λ e.
            wrap e partner_not_found (
              sprint
                ("partner " ∷ job.recipient_partner_id ∷ " not found for J-MDN delivery" ∷ [])))
          (moment.lookup job.recipient_partner_id)
    url ← receipt_url partner
    request_to moment "failed to create J-MDN HTTP request" url (record {
      url = url;
      headers = ("X-FideX-Receipt-For", job.original_message_id) ∷ common_headers w msg;
      body = encode_receipt_body (
          build_jmdn w engine moment job.original_message_id (disposition job.status)
            job.original_payload);
    })

  unfoldable pub deliver_business_document : Worker → Moment → Message → Delivery
  deliver_business_document w moment msg =
      transmit moment "message delivery" "" (business_request w moment msg)

  unfoldable pub deliver_jmdn : Worker → Moment → Message → Delivery
  deliver_jmdn w moment msg =
      transmit moment "J-MDN delivery" " on J-MDN" (jmdn_request w moment msg)

  unfoldable pub deliver_message : Worker → Moment → Message → Delivery
  deliver_message w moment msg =
      let job_type = job_type_of msg in
      if job_type == job_type_send_jmdn
      then deliver_jmdn w moment msg
      else if job_type == job_type_process_outbound
      then deliver_business_document w moment msg
      else record {
        sent = none;
        problem = some (validation (sprint ("unknown job_type " ∷ quote job_type ∷ [])));
      }
