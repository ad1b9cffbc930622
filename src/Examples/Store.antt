-- ===== src/Examples/Store.antt =====
-- The theorems on the tables at concrete inputs.
use fidex_go_node.Common.{none, [], ◌∷◌, ◌≡◌, ◌≢◌, ◌↔◌, refl, arith, eq_iff}
use fidex_go_node.Errors.{ok}
use fidex_go_node.Store.Table.{find_row}
use fidex_go_node.Store.Messages.{Messages, key_of, create}
use fidex_go_node.Store.Messages.Rows.{IsValid}
use fidex_go_node.Store.Messages.Create.{
  IsDuplicate, stored, create-IsValid, create-IsDuplicate_iff,
}
use fidex_go_node.Store.Partners
use fidex_go_node.Store.Partners.{Partners}
use fidex_go_node.Store.Partners.{stamped}
use fidex_go_node.Store.Partners.Negotiated.{create-negotiate}
use fidex_go_node.Crypto.Negotiate.{negotiate, local_supported}
use fidex_go_node.Domain.{Partner}
use fidex_go_node.Examples.{first, one_message, sqlite, partner_b}

abbrev nothing : Messages
nothing = record { rows = []; sequence = 0 }

pub one_message-IsValid : IsValid one_message
one_message-IsValid = record {
  distinct = (tt, tt);
  numbered = (omega arith, tt);
  complete = (
    (
      λ h. ground (arith, h, eq_iff "m-1" ""),
      refl,
      λ h. ground (arith, h, eq_iff "process_outbound" ""),
    ),
    tt,
  );
}

create-IsValid_example : IsValid (create sqlite 9 none one_message first).0
create-IsValid_example = create-IsValid sqlite 9 none one_message first one_message-IsValid

create-IsDuplicate_example :
    (IsDuplicate (create sqlite 9 none one_message first).1
      ↔ (find_row key_of "m-1" one_message.rows ≢ none))
    × (((create sqlite 9 none one_message first).1 ≡ ok (stored 9 one_message first))
        ↔ (find_row key_of "m-1" one_message.rows ≡ none))
create-IsDuplicate_example =
    create-IsDuplicate_iff sqlite 9 none one_message first refl
      (λ h. ground (arith, h, eq_iff "m-1" "")) refl

abbrev advertised : Partner
advertised = record partner_b { supported_encryption_algorithms = "RSA-OAEP" ∷ "RSA-OAEP-256" ∷ [] }

abbrev no_partners : Partners
no_partners = record { rows = []; sequence = 0 }

abbrev created : Partner
created = record (stamped 9 advertised) { id = 1 }

partner_created : (Partners.create sqlite 9 none no_partners advertised).1 ≡ ok created
unfolding Partners.create find_row
partner_created = refl

create-negotiate_example :
    (created.supported_encryption_algorithms ≡ "RSA-OAEP" ∷ "RSA-OAEP-256" ∷ [])
    × ((row : Partner) × (Partners.get_by_id none
            (Partners.create sqlite 9 none no_partners advertised).0
            "node-b"
          ≡ ok row)
        × (row.partner_id ≡ "node-b")
        × (row.message_endpoint ≡ advertised.message_endpoint)
        × (row.mdn_receipt_endpoint ≡ advertised.mdn_receipt_endpoint)
        × (row.public_key_jwks ≡ advertised.public_key_jwks)
        × (negotiate local_supported row.supported_encryption_algorithms ≡ ok "RSA-OAEP"))
create-negotiate_example =
    create-negotiate sqlite 9 none no_partners advertised created partner_created
