-- ===== src/Api/Transmit.antt =====
-- internal/api/internal_handlers.go: transmitHandler, and TransmitRequest of internal/api/types.go.
pub mod Queued
use fidex_go_node.Common.{
  ℕ, String, Bool, true, false, Option, none, some, [], ◌∷◌, if◌then◌else◌, is_empty,
}
use fidex_go_node.Errors.{Error, plain, Result, ok, err}
use fidex_go_node.Json.{
  Json, text, object, Fields, end, field, Body, json, Member, text_member, decode,
  text_unless_empty, is_no_field,
}
use fidex_go_node.Domain.{Message, queued, outbound}
use fidex_go_node.Store.{Fault, Driver}
use fidex_go_node.Store.Messages.{Messages, create}
use fidex_go_node.Api.{Reply, respond_with_error}
use fidex_go_node.Api.Inbound.{draft}

-- `payload` is a Go map: the members as they are marshalled again, or nil.
pub record TransmitRequest : Type 0 where
  pub destination_partner_id : String
  pub document_type : String
  pub receipt_webhook : String
  pub payload : Option Fields

-- What one request meets besides the table. `through_map` is what the JSON library makes of the
-- members of an object that is decoded into a Go map, nil or with what it holds already, and
-- marshalled again; and whether they can be decoded, which a number beyond a float64 cannot.
pub record Arrival : Type 0 where
  pub now : ℕ
  pub uuid : String
  pub through_map : Option Fields → Fields → Fields × Bool
  pub decode_error : Error
  pub insert_fault : Fault

module _ (arrival : Arrival) where
  abbrev payload_member : Member TransmitRequest
  payload_member = record {
    key = "payload";
    put = λ v r. elim v [
      | Json.null ↦ (record r { payload = none }, true)
      | object fields ↦
          let (kept, fits) = arrival.through_map r.payload fields in
          (record r { payload = some kept }, fits)
      | _ ↦ (r, false)
    ];
  }

  unfoldable pub decode_transmit : Body → TransmitRequest × Bool
  decode_transmit body =
      decode
        (text_member "destination_partner_id" (λ t r. record r { destination_partner_id = t })
          ∷ text_member "document_type" (λ t r. record r { document_type = t })
          ∷ text_member "receipt_webhook" (λ t r. record r { receipt_webhook = t })
          ∷ payload_member
          ∷ [])
        body
        (record {
          destination_partner_id = "";
          document_type = "";
          receipt_webhook = "";
          payload = none;
        })

-- The members of the payload, once the request is valid.
unfoldable pub validate_transmit_request : TransmitRequest → Result Fields
validate_transmit_request r =
    if is_empty r.destination_partner_id
    then err (plain "destination_partner_id is required")
    else if is_empty r.document_type
    then err (plain "document_type is required")
    else elim r.payload [
      | none ↦ err (plain "payload is required and cannot be empty")
      | some fields ↦
          if is_no_field fields
          then err (plain "payload is required and cannot be empty")
          else ok fields
    ]

unfoldable pub encode_transmit : TransmitRequest → Fields → Json
encode_transmit r fields = object (
    field "destination_partner_id" (text r.destination_partner_id) (
      field "document_type" (text r.document_type) (
        text_unless_empty "receipt_webhook" r.receipt_webhook
          (field "payload" (object fields) end))))

unfoldable pub encode_response : String → Json
encode_response message_id =
    object (field "message_id" (text message_id) (field "status" (text "QUEUED") end))

module _ (driver : Driver) (arrival : Arrival) where
  unfoldable pub queue_request : Messages → TransmitRequest → Fields → Messages × Reply
  queue_request t r fields =
      let (t', problem) =
        create driver arrival.now arrival.insert_fault t
          (draft arrival.uuid outbound queued (json (encode_transmit r fields)) arrival.now) in
      elim problem [
        | err e ↦ (t', respond_with_error 500 "Failed to queue message" e)
        | ok row ↦ (t', record { status = 202; body = some (encode_response arrival.uuid) })
      ]

  unfoldable pub transmit_handler : Messages → Body → Messages × Reply
  transmit_handler t body =
      let (r, fits) = decode_transmit arrival body in
      if fits
      then elim (validate_transmit_request r) [
        | err e ↦ (t, respond_with_error 400 "Validation failed" e)
        | ok fields ↦ queue_request t r fields
      ]
      else (t, respond_with_error 400 "Invalid JSON in request body" arrival.decode_error)
