-- ===== src/Store/Partners/Negotiated.antt =====
-- partner_repository.go and the negotiation of internal/crypto/as5_engine.go: what is left of the
-- algorithms that a partner advertised once its row is read back.
use fidex_go_node.Common.{ℕ, suc, none, ◌≡◌, arith, refl, eq_iff, eq_refl}
use fidex_go_node.Errors.{ok}
use fidex_go_node.Domain.{Partner}
use fidex_go_node.Crypto.Negotiate.{negotiate, local_supported}
use fidex_go_node.Store.{Driver, Fault}
use fidex_go_node.Store.Table.Laws.{find_row-append}
use fidex_go_node.Store.Partners.{Partners, key_of, row_of, stamped, create, get_by_id}

module _ (driver : Driver) (now : ℕ) (fault : Fault) (t : Partners) (p made : Partner)
    (done : (create driver now fault t p).1 ≡ ok made) where
  abbrev stored_row : Partner
  stored_row = row_of (suc t.sequence) (stamped now p)

  create-get_by_id_row : get_by_id none (create driver now fault t p).0 p.partner_id ≡ ok stored_row
  unfolding create get_by_id
  create-get_by_id_row = ground (
    arith,
    done,
    eq_refl p.partner_id,
    eq_iff p.partner_id "",
    find_row-append key_of p.partner_id t.rows stored_row,
  )

  -- A partner that Create has stored is read back by its partner_id, with its endpoints and its key
  -- set as they were given; but whatever algorithms it advertised, and although the value that
  -- Create hands to its caller still has them, the negotiation with the partner that was read back
  -- chooses RSA-OAEP.
  pub create-negotiate :
      (made.supported_encryption_algorithms ≡ p.supported_encryption_algorithms)
      × ((row : Partner) × (get_by_id none (create driver now fault t p).0 p.partner_id ≡ ok row)
          × (row.partner_id ≡ p.partner_id)
          × (row.message_endpoint ≡ p.message_endpoint)
          × (row.mdn_receipt_endpoint ≡ p.mdn_receipt_endpoint)
          × (row.public_key_jwks ≡ p.public_key_jwks)
          × (negotiate local_supported row.supported_encryption_algorithms ≡ ok "RSA-OAEP"))
  unfolding create negotiate
  create-negotiate =
      (ground (arith, done), (stored_row, create-get_by_id_row, refl, refl, refl, refl, refl))
