-- ===== src/Api.antt =====
-- internal/api: the handlers of the public listener and of the ERP's listener, and the types of
-- internal/api/types.go. A handler takes the table of messages and returns it with its reply.
pub mod Inbound
pub mod Settings
pub mod Access
pub mod Dashboard
pub mod Published
pub mod Receipt
pub mod Transmit
use fidex_go_node.Common.{
  ℕ, String, Bool, Option, none, some, List, [], ◌∷◌, if◌then◌else◌, is_empty,
}
use fidex_go_node.Errors.{Error, plain, error_text, Result, ok, err, ◌>>◌}
use fidex_go_node.Json.{
  Json, text, object, end, field, Body, Member, text_member, struct_member, decode,
  text_unless_empty,
}
use fidex_go_node.Domain.{Partner}
use fidex_go_node.Crypto.{Jose, Engine}
use fidex_go_node.Wire.{RoutingHeader, FidexEnvelope}

pub record Reply : Type 0 where
  pub status : ℕ
  pub body : Option Json

unfoldable pub respond_with_error : ℕ → String → Error → Reply
respond_with_error code message e = record {
  status = code;
  body =
      some (object (field "error" (text message) (text_unless_empty "message" (error_text e) end)));
}

abbrev pub no_envelope : FidexEnvelope
no_envelope = record {
  routing = record {
    fidex_version = "";
    message_id = "";
    sender_id = "";
    receiver_id = "";
    document_type = "";
    timestamp = "";
    receipt_webhook = "";
  };
  payload = "";
}

abbrev routing_members : List (Member RoutingHeader)
routing_members =
    text_member "fidex_version" (λ t r. record r { fidex_version = t })
    ∷ text_member "message_id" (λ t r. record r { message_id = t })
    ∷ text_member "sender_id" (λ t r. record r { sender_id = t })
    ∷ text_member "receiver_id" (λ t r. record r { receiver_id = t })
    ∷ text_member "document_type" (λ t r. record r { document_type = t })
    ∷ text_member "timestamp" (λ t r. record r { timestamp = t })
    ∷ text_member "receipt_webhook" (λ t r. record r { receipt_webhook = t })
    ∷ []

-- A FidexEnvelope, and a JmdnEnvelope, which has the same members.
unfoldable pub decode_envelope : Body → FidexEnvelope × Bool
decode_envelope body =
    decode
      (struct_member "routing_header" routing_members (λ e. e.routing)
          (λ r e. record e { routing = r })
        ∷ text_member "encrypted_payload" (λ t e. record e { payload = t })
        ∷ [])
      body no_envelope

-- The envelope of internal/api leaves an empty timestamp out.
unfoldable pub marshal_envelope : FidexEnvelope → Json
marshal_envelope e =
    let r = e.routing in
    object (
      field "routing_header"
        (object (
          field "fidex_version" (text r.fidex_version) (
            field "message_id" (text r.message_id) (
              field "sender_id" (text r.sender_id) (
                field "receiver_id" (text r.receiver_id) (
                  text_unless_empty "document_type" r.document_type (
                    text_unless_empty "timestamp" r.timestamp
                      (text_unless_empty "receipt_webhook" r.receipt_webhook end))))))))
        (field "encrypted_payload" (text e.payload) end))

unfoldable pub validate_fidex_envelope : FidexEnvelope → Option Error
validate_fidex_envelope e =
    if is_empty e.routing.fidex_version
    then some (plain "routing_header.fidex_version is required")
    else if is_empty e.routing.message_id
    then some (plain "routing_header.message_id is required")
    else if is_empty e.routing.sender_id
    then some (plain "routing_header.sender_id is required")
    else if is_empty e.routing.receiver_id
    then some (plain "routing_header.receiver_id is required")
    else if is_empty e.payload
    then some (plain "encrypted_payload is required")
    else none

unfoldable pub validate_jmdn_envelope : FidexEnvelope → Option Error
validate_jmdn_envelope e =
    if is_empty e.routing.message_id
    then some (plain "routing_header.message_id is required")
    else if is_empty e.payload
    then some (plain "encrypted_payload is required")
    else none

-- What a handler uses of its services: the crypto engine and the partner repository, each of which
-- may be nil.
pub record Handlers (jose : Jose) : Type 0 where
  pub crypto_service : Option (Engine jose)
  pub partner_repo : Option (String → Result Partner)
