-- ===== src/Examples/Receipts.antt =====
-- The theorems on receipts and on the ERP's requests at concrete inputs.
use fidex_go_node.Common.{
  ◌||◌, true, none, some, [], ◌∷◌, ◌≡◌, ◌==◌, refl, arith, eq_iff, if◌then◌else◌, to_upper_is,
}
use fidex_go_node.Errors.{plain, ok}
use fidex_go_node.Json.{text, object, Fields, end, field, Body, json, raw, decode, same_key}
use fidex_go_node.Domain.{failed, Message, delivered, job_type_process_outbound}
use fidex_go_node.Crypto.{Jose, create_jmdn, encode_receipt}
use fidex_go_node.Wire.{encode_receipt_body, decode_queued, decode_jmdn_job}
use fidex_go_node.Store.Table.{find_row}
use fidex_go_node.Store.Messages.{key_of, set_status}
use fidex_go_node.Store.Messages.Create.{appended}
use fidex_go_node.Queue.{Worker, build_jmdn, HttpRequest, jmdn_request, disposition, job_type_of}
use fidex_go_node.Api.Receipt
use fidex_go_node.Api.Receipt.{FlatReceipt, decode_flat, receipt_handler}
use fidex_go_node.Api.Receipt.Reconcile.{flat_receipt_effect}
use fidex_go_node.Api.Receipt.RoundTrip.{jmdn_request-receipt_handler}
use fidex_go_node.Api.Transmit
use fidex_go_node.Api.Transmit.{
  TransmitRequest, decode_transmit, validate_transmit_request, transmit_handler, encode_response,
  encode_transmit,
}
use fidex_go_node.Api.Transmit.Queued.{queued_row, sent, transmit_handler_queued}
use fidex_go_node.Examples.{toy, first, one_message, sqlite}
use fidex_go_node.Examples.Queue.{moment}
use fidex_go_node.Examples.Api.{handlers, free_m2}

abbrev receipt_arrival : Receipt.Arrival
receipt_arrival = record {
  now = 300;
  unquote = λ t. raw t;
  decode_error = plain "no JSON";
  insert_fault = none;
  update_fault = none;
}

abbrev forged : FlatReceipt
forged = record {
  receipt = record {
    original_message_id = "m-1";
    status = "failed";
    hash_verification = "";
    timestamp = "t";
    error_log = none;
  };
  receiver_id = "";
  signature = "";
}

abbrev forged_body : Body
forged_body = json (
    object (
      field "original_message_id" (text "m-1")
        (field "status" (text "failed") (field "timestamp" (text "t") end))))

forged_read : decode_flat forged_body ≡ (forged, true)
unfolding decode_flat decode same_key
forged_read = refl

found_m1 : find_row key_of "m-1" one_message.rows ≡ some first
unfolding find_row
found_m1 = refl

flat_receipt_example :
    find_row key_of "m-1"
      (receipt_handler sqlite receipt_arrival toy handlers one_message forged_body).0.rows
    ≡ some (
        if forged.receipt.original_message_id == "m-1"
        then set_status
            (if to_upper_is forged.receipt.status "FAILED"
                || to_upper_is forged.receipt.status "ERROR"
              then failed
              else delivered)
            first
        else first)
flat_receipt_example =
    flat_receipt_effect sqlite receipt_arrival toy handlers one_message forged_body forged "m-1"
      first forged_read (λ h. ground (arith, h, eq_iff "m-1" "")) refl refl found_m1

abbrev receipt_job : Message
receipt_job = record first {
  message_id = "u-1";
  payload = json (
      object (
        field "job_type" (text "send_jmdn") (
          field "original_message_id" (text "m-1") (
            field "original_payload" (text "order") (
              field "recipient_partner_id" (text "node-b")
                (field "status" (text "processed") end))))));
  job_type = "send_jmdn";
}

abbrev receipt_request : HttpRequest
receipt_request = record {
  url = "https://b/receipt";
  headers =
      ("X-FideX-Receipt-For", "m-1")
      ∷ ("Content-Type", "application/json")
      ∷ ("User-Agent", "FideX-Node/1.0")
      ∷ ("X-FideX-Message-ID", "u-1")
      ∷ ("X-FideX-Sender", "node-a")
      ∷ [];
  body = encode_receipt_body (record {
    original_message_id = "m-1";
    status = "DELIVERED";
    receiver_id = "node-a";
    hash_verification = "sha256:hex";
    timestamp = "t";
    signature = "signed";
  });
}

-- An engine that signs every payload, and its worker.
abbrev signing : Jose
signing = record toy { sign = λ s payload. ok "signed" }

abbrev signing_worker : Worker signing
signing_worker = record {
  engine = some (record { private_key = tt; node_id = "node-a" });
  node_id = "node-a";
  max_retries = 3;
}

receipt_made : jmdn_request signing signing_worker moment receipt_job ≡ ok receipt_request
unfolding jmdn_request decode_jmdn_job decode same_key build_jmdn create_jmdn disposition
    encode_receipt to_upper_is
receipt_made = refl

jmdn_example :
    find_row key_of "m-1"
      (receipt_handler sqlite receipt_arrival toy handlers one_message
        (json receipt_request.body)).0.rows
    ≡ some (
        if (decode_jmdn_job receipt_job.payload).0.original_message_id == "m-1"
        then set_status
            (if to_upper_is (decode_jmdn_job receipt_job.payload).0.status "FAILED"
              then failed
              else delivered)
            first
        else first)
jmdn_example =
    jmdn_request-receipt_handler signing signing_worker moment receipt_job receipt_request sqlite
      receipt_arrival toy handlers one_message "m-1" first receipt_made refl refl found_m1

abbrev transmit_arrival : Transmit.Arrival
transmit_arrival = record {
  now = 10;
  uuid = "m-2";
  through_map = λ old fs. (fs, true);
  decode_error = plain "no JSON";
  insert_fault = none;
}

abbrev order_fields : Fields
order_fields = field "total" (text "12") end

abbrev erp_request : TransmitRequest
erp_request = record {
  destination_partner_id = "node-b";
  document_type = "ORDER";
  receipt_webhook = "";
  payload = some order_fields;
}

abbrev erp_body : Body
erp_body = json (
    object (
      field "destination_partner_id" (text "node-b")
        (field "document_type" (text "ORDER") (field "payload" (object order_fields) end))))

erp_read : decode_transmit transmit_arrival erp_body ≡ (erp_request, true)
unfolding decode_transmit decode same_key
erp_read = refl

erp_valid : validate_transmit_request erp_request ≡ ok order_fields
unfolding validate_transmit_request
erp_valid = refl

transmit_example :
    (transmit_handler sqlite transmit_arrival one_message erp_body ≡ (
      appended one_message
          (queued_row sqlite transmit_arrival one_message erp_body erp_request order_fields),
      record { status = 202; body = some (encode_response "m-2") },
    ))
    × (job_type_of
          (queued_row sqlite transmit_arrival one_message erp_body erp_request order_fields)
        ≡ job_type_process_outbound)
    × (decode_queued
          (queued_row sqlite transmit_arrival one_message erp_body erp_request order_fields).payload
        ≡ (
          record {
            destination_partner_id = "node-b";
            document_type = "ORDER";
            receipt_webhook = "";
            payload = some (object order_fields);
          },
          true,
        ))
    × ((asked : TransmitRequest) (given : Fields)
        → erp_body ≡ json (encode_transmit asked given)
        → sent transmit_arrival asked given ≡ (erp_request, true))
transmit_example =
    transmit_handler_queued sqlite transmit_arrival one_message erp_body erp_request order_fields
      erp_read erp_valid refl (λ h. ground (arith, h, eq_iff "m-2" "")) free_m2
