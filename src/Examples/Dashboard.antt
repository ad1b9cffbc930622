-- ===== src/Examples/Dashboard.antt =====
-- The theorems on the dashboard at concrete inputs.
use fidex_go_node.Common.{
  String, ◌-◌, ◌*◌, ◌≤◌, ◌<◌, true, none, some, [], ◌∷◌, ◌≡◌, ◌==◌, refl, arith, eq_iff,
  if◌then◌else◌, ◌^◌, ℕ, pos, wrap_int64,
}
use fidex_go_node.Errors.{plain, ok}
use fidex_go_node.Json.{decode, same_key, integer, Body, json, raw, object, field, end, text}
use fidex_go_node.Strconv.{atoi}
use fidex_go_node.Store.Messages.{order_by_age, list_paginated}
use fidex_go_node.Domain.{Partner}
use fidex_go_node.Config.{Config, default_config}
use fidex_go_node.Crypto.{Jose, Engine}
use fidex_go_node.Crypto.Keys.{export_jwks, parse_public_key_by_use}
use fidex_go_node.Store.Table.{find_row}
use fidex_go_node.Api.Dashboard.Qr.{get_base_url}
use fidex_go_node.Api.Dashboard.Discover.{decode_discovery}
use fidex_go_node.Api.Published.{Request, as5_config_handler, jwks_handler}
use fidex_go_node.Api.Published.Discovery.{ReadsBack, discover_partner-as5_config_handler}
use fidex_go_node.Store.Partners.{Partners, key_of}
use fidex_go_node.Discovery.Config.{answered, generate_as5_config, encode_as5_config}
use fidex_go_node.Discovery.Service.{World}
use fidex_go_node.Api.Dashboard.{
  Query, MessageListResponse, messages, listed, offset_of, limit_of, list_filtered, status_named,
}
use fidex_go_node.Api.Dashboard.Pages.{listing, collect, collect-listing, messages_bounded}
use fidex_go_node.Api.Dashboard.Discovered.{status, after}
use fidex_go_node.Examples.{toy, sqlite, one_message, first, partner_b}

collect-listing_example : collect one_message "QUEUED" 5 1 0 ≡ listing one_message "QUEUED"
unfolding status_named order_by_age
collect-listing_example =
    collect-listing one_message "QUEUED" 5 (omega arith) (omega arith) 1 (omega arith) (omega arith)

abbrev query : Query
query = record { limit = "7"; offset = "0"; status = "" }

abbrev page : MessageListResponse
page = record { messages = first ∷ []; total = 1; page = pos 1; per_page = 7 }

first_page : messages none none one_message query ≡ listed page
unfolding messages list_filtered list_paginated limit_of offset_of atoi integer wrap_int64
first_page = refl

messages_bounded_example :
    (1 ≤ 7)
    × (7 ≤ 100)
    × (1 ≤ 7)
    × (offset_of "0" < 2 ^ 63 - 1
        → (number : ℕ) × (pos 1 ≡ pos number)
          × (1 ≤ number)
          × ((number - 1) * 7 ≤ offset_of "0")
          × (offset_of "0" < number * 7))
messages_bounded_example = messages_bounded one_message query page first_page

abbrev one_partner : Partners
one_partner = record { rows = partner_b ∷ []; sequence = 1 }

abbrev published_world : World
published_world = record {
  get = λ url. answered 200 (
      json (
        encode_as5_config (
          generate_as5_config record {
            node_id = "node-b";
            organization_name = "B";
            base_url = "https://b";
            public_domain = "";
            supported_document_types = [];
          })));
  post = λ url v. answered 404 (raw "");
  print = λ v. some "keys";
  now = 9;
}

abbrev request : Body
request = json (object (field "discovery_url" (text "https://b") end))

-- Of its keys' ids, the set that this node exports.
abbrev publisher : Jose
publisher = record toy {
  parse_key_set = λ t. ok (
      record { key = some tt; key_id = "node-b:enc-sig"; algorithm = "RS256"; use_for = "sig" }
      ∷ record { key = some tt; key_id = "node-b:enc-enc"; algorithm = "RSA-OAEP"; use_for = "enc" }
      ∷ []);
}

abbrev own_engine : Engine publisher
own_engine = record { private_key = tt; node_id = "node-b" }

abbrev own_config : Config
own_config = record default_config { node_id = "node-b"; organization_name = "B" }

abbrev own_request : Request
own_request = record { tls = true; forwarded_proto = ""; forwarded_host = ""; host = "b" }

abbrev spelt : String → Body
spelt t = json (text t)

abbrev own_world : World
own_world = record published_world {
  get = λ url.
      if url == "https://b"
      then as5_config_handler (some own_config) own_request
      else jwks_handler publisher spelt (some own_engine) own_config;
}

own_keys_read : ReadsBack publisher sqlite own_world spelt own_engine own_config own_request
own_keys_read t printed = (text t, "keys", refl, refl, refl)

discover_own_documents_example :
    (status publisher sqlite own_world true none (plain "") request one_partner ≡ 200)
    × ((p : Partner) × (find_row key_of "node-b"
            (after publisher sqlite own_world true none (plain "") request one_partner).rows
          ≡ some p)
        × (p.message_endpoint ≡ "https://b/api/v1/inbound")
        × (p.mdn_receipt_endpoint ≡ "https://b/api/v1/receipt")
        × (parse_public_key_by_use publisher p.public_key_jwks "enc" ≡ ok tt)
        × (parse_public_key_by_use publisher p.public_key_jwks "sig" ≡ ok tt))
unfolding decode_discovery decode same_key get_base_url export_jwks
discover_own_documents_example =
    discover_partner-as5_config_handler publisher sqlite own_world spelt own_engine own_config
      own_request one_partner true (plain "") request "https://b" "keys" own_keys_read
      (λ h. ground (arith, h, eq_iff "node-b" "")) refl
      (λ h. ground (arith, h, eq_iff "https://b" "")) refl refl refl
