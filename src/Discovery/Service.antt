-- ===== src/Discovery/Service.antt =====
-- internal/discovery/service.go: the two sides of the handshake, and FetchAndCachePartnerKeys. What
-- other nodes answer is an argument; a document that is decoded into `interface{}` and marshalled
-- again is a text that a parameter makes of it.
pub mod Laws
pub mod Handshake
use fidex_go_node.Common.{
  ℕ, ◌*◌, ◌==◌, String, Bool, true, false, Option, none, some, List, [], ◌∷◌, if◌then◌else◌,
  is_empty, sprint, same_number, decimal, ◌||◌,
}
use fidex_go_node.Errors.{
  Error, plain, Result, ok, err, ◌>>=◌, ◌>>◌, map_error, context, error_text,
}
use fidex_go_node.Json.{
  Json, text, bool, array, object, end, field, Body, raw, json, Member, text_member, texts_member,
  texts_unless_empty, decode, encode_texts,
}
use fidex_go_node.Domain.{Partner}
use fidex_go_node.Crypto.{Jose}
use fidex_go_node.Crypto.Keys.{parse_public_key}
use fidex_go_node.Store.{Fault, Driver}
use fidex_go_node.Store.Partners
use fidex_go_node.Store.Partners.{Partners}
use fidex_go_node.Discovery.Tokens.{TokenStore, generate_token, validate_and_consume}
use fidex_go_node.Discovery.Config.{
  NodeConfig, As5Configuration, generate_as5_config, Reply, unreachable, answered, fetch_as5_config,
  resolve_supported_encryption_algorithms,
}

pub record RegistrationRequest : Type 0 where
  pub node_id : String
  pub organization_name : String
  pub jwks_uri : String
  pub message_endpoint : String
  pub mdn_receipt_endpoint : String
  pub algorithms_supported : List String
  pub supported_encryption_algorithms : List String
  pub webhook_registration_endpoint : String
  pub security_token : String

-- json.Marshal of a request.
unfoldable pub encode_request : RegistrationRequest → Json
encode_request r = object (
    field "node_id" (text r.node_id) (
      field "organization_name" (text r.organization_name) (
        field "jwks_uri" (text r.jwks_uri) (
          field "message_endpoint" (text r.message_endpoint) (
            field "mdn_receipt_endpoint" (text r.mdn_receipt_endpoint) (
              field "algorithms_supported" (array (encode_texts r.algorithms_supported)) (
                texts_unless_empty "supported_encryption_algorithms"
                  r.supported_encryption_algorithms
                  (field "webhook_registration_endpoint" (text r.webhook_registration_endpoint)
                    (field "security_token" (text r.security_token) end)))))))))

abbrev request_members : List (Member RegistrationRequest)
request_members =
    text_member "node_id" (λ t r. record r { node_id = t })
    ∷ text_member "organization_name" (λ t r. record r { organization_name = t })
    ∷ text_member "jwks_uri" (λ t r. record r { jwks_uri = t })
    ∷ text_member "message_endpoint" (λ t r. record r { message_endpoint = t })
    ∷ text_member "mdn_receipt_endpoint" (λ t r. record r { mdn_receipt_endpoint = t })
    ∷ texts_member "algorithms_supported" (λ ts r. record r { algorithms_supported = ts })
    ∷ texts_member "supported_encryption_algorithms"
        (λ ts r. record r { supported_encryption_algorithms = ts })
    ∷ text_member "webhook_registration_endpoint"
        (λ t r. record r { webhook_registration_endpoint = t })
    ∷ text_member "security_token" (λ t r. record r { security_token = t })
    ∷ []

unfoldable pub decode_request : Body → RegistrationRequest × Bool
decode_request body = decode request_members body (record {
  node_id = "";
  organization_name = "";
  jwks_uri = "";
  message_endpoint = "";
  mdn_receipt_endpoint = "";
  algorithms_supported = [];
  supported_encryption_algorithms = [];
  webhook_registration_endpoint = "";
  security_token = "";
})

pub record RegistrationResponse : Type 0 where
  pub success : Bool
  pub message : String

unfoldable pub decode_response : Body → RegistrationResponse × Bool
decode_response body =
    decode
      (record {
        key = "success";
        put = λ v r. elim v [
          | Json.null ↦ (r, true)
          | bool b ↦ (record r { success = b }, true)
          | _ ↦ (r, false)
        ];
      }
        ∷ text_member "message" (λ t r. record r { message = t })
        ∷ [])
      body (record { success = false; message = "" })

abbrev encode_response : Bool → String → Body
encode_response success message =
    json (object (field "success" (bool success) (field "message" (text message) end)))

-- What the rest of the world does during one call: the answers of other nodes, the text that
-- encoding/json makes of a document that it decodes into an `interface{}` and marshals again, none
-- where it cannot be decoded, and the present.
pub record World : Type 0 where
  pub get : String → Reply
  pub post : String → Json → Reply
  pub print : Json → Option String
  pub now : ℕ

-- 30 minutes, in nanoseconds.
abbrev token_lifetime : ℕ
token_lifetime = 30 * 60 * 1000000000

module _ (jose : Jose) (driver : Driver) (world : World) where
  -- FetchAndCachePartnerKeys: the partner's JWKS, as text.
  unfoldable pub fetch_partner_keys : String → Result String
  fetch_partner_keys jwks_url = elim (world.get jwks_url) [
    | unreachable e ↦ err (context "failed to fetch JWKS" (plain e))
    | answered status body ↦
        if same_number status 200
        then elim body [
          | raw t ↦ err (plain "invalid JWKS JSON")
          | json v ↦ elim (world.print v) [
            | none ↦ err (plain "invalid JWKS JSON")
            | some jwks ↦ elim (parse_public_key jose jwks) [
              | ok key ↦ ok jwks
              | err e ↦ err (context "invalid JWKS format" e)
            ]
          ]
        ]
        else err (plain (sprint ("failed to fetch JWKS: HTTP " ∷ decimal status ∷ [])))
  ]

  abbrev pub requested : RegistrationRequest → String → Partner
  requested req jwks = record {
    id = 0;
    partner_id = req.node_id;
    name = req.organization_name;
    jwks_url = req.jwks_uri;
    message_endpoint = req.message_endpoint;
    mdn_receipt_endpoint = req.mdn_receipt_endpoint;
    public_key_jwks = jwks;
    supported_encryption_algorithms = req.supported_encryption_algorithms;
    last_key_refresh = some world.now;
    created_at = 0;
    updated_at = 0;
  }

  -- The last step of a registration: update the partner if it is known, create it otherwise.
  register_partner : Fault → Fault → Partners → Partner → Partners × Option Error
  register_partner lookup write partners p =
      elim (Partners.get_by_id lookup partners p.partner_id) [
        | ok existing ↦
            let (partners', problem) =
              Partners.update world.now write partners (record p { id = existing.id }) in
            (
              partners',
              elim problem [ none ↦ none | some e ↦ some (context "failed to update partner" e) ],
            )
        | err e ↦
            let (partners', made) = Partners.create driver world.now write partners p in
            (
              partners',
              elim made [ ok q ↦ none | err e ↦ some (context "failed to create partner" e) ],
            )
      ]

  -- HandleWebhookRegistration: the tokens, the partners and the error.
  unfoldable pub handle_webhook_registration :
      Fault
      → Fault
      → TokenStore
      → Partners
      → RegistrationRequest
      → TokenStore × Partners × Option Error
  unfolding register_partner
  handle_webhook_registration lookup write ts partners req =
      let (ts', valid) = validate_and_consume world.now ts req.security_token in
      if valid
      then (if is_empty req.node_id || is_empty req.organization_name || is_empty req.jwks_uri
          then (ts', partners, some (plain "missing required fields"))
          else elim (fetch_partner_keys req.jwks_uri) [
            | err e ↦ (ts', partners, some (context "failed to fetch partner JWKS" e))
            | ok jwks ↦
                let (partners', problem) =
                  register_partner lookup write partners (requested req jwks) in
                (ts', partners', problem)
          ])
      else (ts', partners, some (plain "invalid or expired security token"))

  unfoldable registered :
      Fault → Fault → TokenStore → Partners → RegistrationRequest → TokenStore × Partners × Reply
  registered lookup write ts partners req =
      let (ts', partners', problem) = handle_webhook_registration lookup write ts partners req in
      (
        ts',
        partners',
        elim problem [
          | some e ↦ answered 400 (encode_response false (error_text e))
          | none ↦ answered 200 (encode_response true "Partner registered successfully")
        ],
      )

  -- webhookRegistrationHandler of internal/api/discovery_handlers.go, with its answer, of the
  -- request's method and body. `service` says whether there is a discovery service.
  unfoldable pub webhook_registration_handler :
      Bool → Fault → Fault → TokenStore → Partners → String → Body → TokenStore × Partners × Reply
  unfolding registered
  webhook_registration_handler service lookup write ts partners method body =
      let (req, fits) = decode_request body in
      if method == "POST"
      then if fits
        then if service
          then registered lookup write ts partners req
          else (ts, partners, answered 500 (encode_response false "Service not available"))
        else (ts, partners, answered 400 (encode_response false "Invalid JSON in request body"))
      else (ts, partners, answered 405 (raw "Method not allowed\n"))

  unfoldable pub send_registration_request : String → RegistrationRequest → Result (Unit {0})
  send_registration_request url req = elim (world.post url (encode_request req)) [
    | unreachable e ↦ err (context "failed to send registration request" (plain e))
    | answered status body ↦
        if same_number status 200
        then (let (response, fits) = decode_response body in
            if fits
            then (if response.success
                then ok tt
                else err (plain (sprint ("registration rejected: " ∷ response.message ∷ []))))
            else err (plain "failed to decode registration response"))
        else err (plain (sprint ("registration rejected with status: " ∷ decimal status ∷ [])))
  ]

  abbrev pub registration : NodeConfig → String → RegistrationRequest
  registration config token =
      let own = generate_as5_config config in
      record {
        node_id = own.node_id;
        organization_name = own.organization_name;
        jwks_uri = own.endpoints.jwks;
        message_endpoint = own.endpoints.receive_message;
        mdn_receipt_endpoint = own.endpoints.receive_receipt;
        algorithms_supported =
            own.security.signature_algorithm ∷ own.security.encryption_algorithm
            ∷ own.security.content_encryption ∷ [];
        supported_encryption_algorithms = own.security.supported_encryption_algorithms;
        webhook_registration_endpoint = own.endpoints.register;
        security_token = token;
      }

  abbrev pub discovered : As5Configuration → String → Partner
  discovered remote jwks = record {
    id = 0;
    partner_id = remote.node_id;
    name = remote.organization_name;
    jwks_url = remote.endpoints.jwks;
    message_endpoint = remote.endpoints.receive_message;
    mdn_receipt_endpoint = remote.endpoints.receive_receipt;
    public_key_jwks = jwks;
    supported_encryption_algorithms = resolve_supported_encryption_algorithms remote;
    last_key_refresh = some world.now;
    created_at = 0;
    updated_at = 0;
  }

  -- InitiatePartnerHandshake, with what becomes of the token of step 3.
  unfoldable pub initiate_partner_handshake :
      NodeConfig
      → Result String
      → Fault
      → TokenStore
      → Partners
      → String
      → TokenStore × Partners × Result Partner
  initiate_partner_handshake config made write ts partners discovery_url =
      elim (fetch_as5_config world.get discovery_url) [
        | err e ↦ (ts, partners, err (context "step 1 failed - could not fetch AS5 config" e))
        | ok remote ↦ elim (fetch_partner_keys remote.endpoints.jwks) [
          | err e ↦ (ts, partners, err (context "step 2 failed - could not fetch JWKS" e))
          | ok jwks ↦
              let (ts', token) = generate_token world.now token_lifetime made ts in
              elim token [
                | err e ↦
                    (ts', partners, err (context "step 3 failed - could not generate token" e))
                | ok key ↦
                    elim (send_registration_request remote.endpoints.register
                      (registration config key)) [
                        | err e ↦
                            (ts', partners, err (context "step 3 failed - registration rejected" e))
                        | ok u ↦
                            let (partners', created) =
                              Partners.create driver world.now write partners
                                (discovered remote jwks) in
                            (
                              ts',
                              partners',
                              map_error (context "step 4 failed - could not create partner")
                                  created,
                            )
                      ]
              ]
        ]
      ]
