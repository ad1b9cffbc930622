-- ===== src/Api/Settings.antt =====
-- internal/api/settings_handlers.go: the configuration, the keys and the partners of the settings
-- page. A file written with `os.WriteFile`, a generated key pair and the text of a time are the Go
-- library's: what they gave is an argument.
pub mod Ids
pub mod Accounts
pub mod Routes
use fidex_go_node.Common.{
  ℕ, suc, ◌+◌, String, Bool, true, Option, none, some, List, [], ◌∷◌, sprint, decimal, ℤ, pos,
  negsuc, is_empty, if◌then◌else◌,
}
use fidex_go_node.Errors.{Error, plain, Result, ok, err}
use fidex_go_node.Json.{
  Json, bool, number, text, array, object, Items, nil, cons, Fields, end, field, Body, text_member,
  decode, text_unless_empty, encode_texts,
}
use fidex_go_node.Domain.{Partner}
use fidex_go_node.Config.{Config}
use fidex_go_node.Store.{Fault, failure}
use fidex_go_node.Store.Partners
use fidex_go_node.Store.Partners.{Partners}
use fidex_go_node.Api.{Reply, respond_with_error}
use fidex_go_node.Api.Settings.Ids.{parse_int64}

-- The `nil` that a handler reports when there is no error to print.
abbrev pub no_error : Error
no_error = plain ""

abbrev pub reply : ℕ → Fields → Reply
reply status fields = record { status = status; body = some (object fields) }

-- `{"success": true, "message": …}`, with the keys in their order.
abbrev pub success : String → Reply
success message = reply 200 (field "message" (text message) (field "success" (bool true) end))

-- The loop that makes a response of each row.
abbrev pub items : {R : Type 0} → (R → Json) → List R → Items
items print [] = nil
items print (r ∷ rows) = cons (print r) (items print rows)

-- %d of an int64.
abbrev pub decimal_int : ℤ → String
decimal_int (pos n) = decimal n
decimal_int (negsuc n) = sprint ("-" ∷ decimal (suc n) ∷ [])

-- A statement `WHERE id = ?`: every stored id is positive, so a negative one meets no row.
abbrev at_id : {S : Type 0} → (ℕ → S × Option Error) → (ℤ → S × Option Error) → ℤ → S × Option Error
at_id stored missing (pos n) = stored n
at_id stored missing (negsuc n) = missing (negsuc n)

unfoldable pub encode_config : Config → Bool → Json
encode_config c has_private_key = object (
    field "node_id" (text c.node_id) (
      field "organization_name" (text c.organization_name) (
        field "public_domain" (text c.public_domain) (
          field "internal_api_port" (number (decimal_int c.internal_api_port)) (
            field "public_api_port" (number (decimal_int c.public_api_port)) (
              field "allowed_ip_addresses" (array (encode_texts c.allowed_ip_addresses)) (
                field "enable_ip_allowlist" (bool c.enable_ip_allowlist) (
                  field "has_private_key" (bool has_private_key)
                    (field "public_key_path" (text c.public_key_path) end)))))))))

-- getConfigHandler: the configuration may be nil, and `stat` says whether the file of a path is there.
unfoldable pub get_config : Option Config → (String → Bool) → Reply
get_config none stat = respond_with_error 500 "Configuration not available" no_error
get_config (some c) stat = record {
  status = 200;
  body = some (encode_config c (stat c.private_key_path));
}

-- A file system, as far as it is written here: the files by path, the last write first.
abbrev pub Files : Type 0
Files = List (String × String)

-- `os.WriteFile`, with the error that it reports; a write that fails leaves the files as they are.
abbrev write_file : Fault → Files → String → String → Files × Option Error
write_file (some e) files path content = (files, some (plain e))
write_file none files path content = ((path, content) ∷ files, none)

-- The PEM texts of a key pair, the private key's first.
abbrev pub KeyPair : Type 0
KeyPair = String × String

abbrev rotated : String → Reply
rotated public_key = reply 200 (
    field "message" (text "Keys rotated successfully")
      (field "public_key" (text public_key) (field "success" (bool true) end)))

save_public_key : Config → Fault → Files → KeyPair → Files × Reply
save_public_key c fault files pair =
    let (files', problem) = write_file fault files c.public_key_path pair.1 in
    elim problem [
      | some e ↦ (files', respond_with_error 500 "Failed to save public key" e)
      | none ↦ (files', rotated pair.1)
    ]

-- rotateKeysHandler: the private key's file is written before the public key's.
unfoldable pub rotate_keys : Option Config → Result KeyPair → Fault → Fault → Files → Files × Reply
unfolding save_public_key
rotate_keys none generated private_fault public_fault files =
    (files, respond_with_error 500 "Configuration not available" no_error)
rotate_keys (some c) (err e) private_fault public_fault files =
    (files, respond_with_error 500 "Failed to generate keys" e)
rotate_keys (some c) (ok pair) private_fault public_fault files =
    let (files', problem) = write_file private_fault files c.private_key_path pair.0 in
    elim problem [
      | some e ↦ (files', respond_with_error 500 "Failed to save private key" e)
      | none ↦ save_public_key c public_fault files' pair
    ]

-- The text of an instant, as time.Format prints it.
module _ (format : ℕ → String) where
  abbrev refreshed : Option ℕ → String
  refreshed none = ""
  refreshed (some at) = format at

  unfoldable pub encode_partner : Partner → Json
  encode_partner p = object (
      field "id" (number (decimal p.id)) (
        field "partner_id" (text p.partner_id) (
          field "name" (text p.name) (
            field "jwks_url" (text p.jwks_url) (
              text_unless_empty "last_key_refresh" (refreshed p.last_key_refresh)
                (field "created_at" (text (format p.created_at)) end))))))

  unfoldable pub list_partners_detailed : Fault → Partners → Reply
  list_partners_detailed fault t = elim (Partners.list fault t) [
    | err e ↦ respond_with_error 500 "Failed to load partners" e
    | ok rows ↦ reply 200 (field "partners" (array (items encode_partner rows)) end)
  ]

-- What the repository reports of a negative id, after the checks on the name.
abbrev missing_partner : Fault → String → Partners → ℤ → Partners × Option Error
missing_partner (some e) what t id = (t, some (failure what e))
missing_partner none what t id =
    (t, some (plain (sprint ("partner not found: id=" ∷ decimal_int id ∷ []))))

-- json.Decode into an UpdatePartnerRequest.
abbrev decode_name : Body → String × Bool
decode_name body = decode (text_member "name" (λ t s. t) ∷ []) body ""

abbrev name_missing : Fault → String → Partners → ℤ → Partners × Option Error
name_missing fault name t id =
    if is_empty name
    then (t, some (plain "name cannot be empty"))
    else missing_partner fault "update partner name" t id

abbrev settled : Partners × Option Error → String → String → Partners × Reply
settled outcome failed done = elim outcome.1 [
  | some e ↦ (outcome.0, respond_with_error 500 failed e)
  | none ↦ (outcome.0, success done)
]

-- updatePartnerHandler: `decode_error` is the text of json.Decode's error.
unfoldable pub update_partner : ℕ → Fault → Error → String → Body → Partners → Partners × Reply
update_partner now fault decode_error param body t =
    let (name, fits) = decode_name body in
    let outcome =
      at_id (λ id. Partners.update_name_by_db_id now fault t id name) (name_missing fault name t)
        (parse_int64 param) in
    if fits
    then settled outcome "Failed to update partner" "Partner updated successfully"
    else (t, respond_with_error 400 "Invalid request body" decode_error)

unfoldable pub delete_partner : Fault → String → Partners → Partners × Reply
delete_partner fault param t =
    settled
      (at_id (Partners.delete_by_db_id fault t) (missing_partner fault "delete partner" t)
        (parse_int64 param))
      "Failed to delete partner" "Partner deleted successfully"
