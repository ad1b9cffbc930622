-- ===== src/Store/Partners/Laws.antt =====
-- partner_repository.go: what every statement keeps true of the rows, and what it does to them.
use fidex_go_node.Common.{
  ℕ, suc, ◌≤◌, String, Option, none, some, [], ◌∷◌, ◌++◌, ◌≡◌, ◌≢◌, ◌==◌, inl, inr, arith, eq_iff,
  refl, All, All-append, All-mono, if◌then◌else◌, Option-cases,
}
use fidex_go_node.Errors.{ok}
use fidex_go_node.Domain.{Partner}
use fidex_go_node.Store.{Fault, Driver, or_now}
use fidex_go_node.Store.Table.{find_row, update_rows, delete_rows}
use fidex_go_node.Store.Table.Laws.{
  AreDistinct, find_row-insert, find_row-update_rows, find_row-IsFresh, find_row-All,
  AreDistinct-append, update_rows-All, delete_rows-All, update_rows-AreDistinct,
  delete_rows-AreDistinct,
}
use fidex_go_node.Store.Partners.{
  Partners, key_of, row_of, set_columns, create, get_by_id, update, delete, upsert,
}

-- A row has a partner_id, and none of the algorithms that its partner advertised.
abbrev pub IsStored : Partner → Type 0
IsStored p = (p.partner_id ≢ "") × (p.supported_encryption_algorithms ≡ [])

pub record IsValid (t : Partners) : Type 0 where
  pub distinct : AreDistinct key_of t.rows
  pub numbered : All (λ p. p.id ≤ t.sequence) t.rows
  pub stored : All IsStored t.rows

abbrev inserted : Partners → Partner → Partners
inserted t p = record { rows = t.rows ++ row_of (suc t.sequence) p ∷ []; sequence = suc t.sequence }

module _ (t : Partners) (v : IsValid t) where
  inserted-IsValid :
      (p : Partner)
      → p.partner_id ≢ ""
      → find_row key_of p.partner_id t.rows ≡ none
      → IsValid (inserted t p)
  inserted-IsValid p named absent = record {
    distinct =
        AreDistinct-append key_of t.rows (row_of (suc t.sequence) p) v.distinct
          (find_row-IsFresh key_of _ t.rows absent);
    numbered =
        All-append (λ q. q.id ≤ suc t.sequence) t.rows (row_of (suc t.sequence) p ∷ [])
          (All-mono (λ q h. omega arith) t.rows v.numbered) (omega arith, tt);
    stored =
        All-append IsStored t.rows (row_of (suc t.sequence) p ∷ []) v.stored ((named, refl), tt);
  }

  changed-IsValid :
      (key : String) (p : Partner)
      → IsValid (record t { rows = update_rows key_of key (set_columns p) t.rows })
  changed-IsValid key p = record {
    distinct = update_rows-AreDistinct key_of key (set_columns p) (λ q. refl) t.rows v.distinct;
    numbered =
        update_rows-All key_of (λ q. q.id ≤ t.sequence) key (set_columns p) (λ q h. h) t.rows
          v.numbered;
    stored = update_rows-All key_of IsStored key (set_columns p) (λ q h. h) t.rows v.stored;
  }

  pub create-IsValid :
      (driver : Driver) (now : ℕ) (fault : Fault) (p : Partner)
      → IsValid (create driver now fault t p).0
  unfolding create
  create-IsValid driver now fault p = ground (
    arith,
    inserted-IsValid
        (record p { created_at = or_now p.created_at now; updated_at = or_now p.updated_at now }),
    eq_iff p.partner_id "",
  )

  update-IsValid : (now : ℕ) (fault : Fault) (p : Partner) → IsValid (update now fault t p).0
  unfolding update
  update-IsValid now fault p =
      let after = changed-IsValid p.partner_id (record p { updated_at = now }) in ground arith

  -- Upsert keeps the table well-formed: no partner_id stands in two rows, no row id is above the
  -- sequence, and every row has a partner_id and no advertised algorithms.
  upsert-IsValid : (now : ℕ) (fault : Fault) (p : Partner) → IsValid (upsert now fault t p).0
  unfolding upsert
  upsert-IsValid now fault p =
      let q = record p { created_at = or_now p.created_at now; updated_at = now } in
      ground (arith, inserted-IsValid q, changed-IsValid p.partner_id q, eq_iff p.partner_id "")

  pub delete-IsValid : (fault : Fault) (key : String) → IsValid (delete fault t key).0
  unfolding delete
  delete-IsValid fault key =
      let after : IsValid (record t { rows = delete_rows key_of key t.rows }) = record {
        distinct = delete_rows-AreDistinct key_of key t.rows v.distinct;
        numbered = delete_rows-All key_of (λ p. p.id ≤ t.sequence) key t.rows v.numbered;
        stored = delete_rows-All key_of IsStored key t.rows v.stored;
      } in
      ground arith

  -- A partner that GetByID returns has the partner_id asked for, and no advertised algorithms.
  get_by_id-IsStored :
      (fault : Fault) (key : String) (p : Partner) → get_by_id fault t key ≡ ok p → IsStored p
  unfolding get_by_id
  get_by_id-IsStored fault key p h =
      find_row-All key_of IsStored key t.rows p v.stored (ground arith)

abbrev pub upserted : ℕ → ℕ → Partner → Option Partner → Partner
upserted now id p none =
    row_of id (record p { created_at = or_now p.created_at now; updated_at = now })
upserted now id p (some row) = set_columns (record p { updated_at = now }) row

-- Upsert with no fault and a partner_id that is not empty stores the partner's columns: a row of
-- that partner_id keeps its id and its time of creation, otherwise a new row gets the next id. No
-- other partner's row changes.
pub upsert_effect :
    (now : ℕ) (t : Partners) (p : Partner) (other : String)
    → p.partner_id ≢ ""
    → find_row key_of other (upsert now none t p).0.rows ≡ (
        if p.partner_id == other
        then some (upserted now (suc t.sequence) p (find_row key_of p.partner_id t.rows))
        else find_row key_of other t.rows)
unfolding upsert
upsert_effect now t p other named =
    let q = record p { created_at = or_now p.created_at now; updated_at = now } in
    elim (Option-cases (find_row key_of p.partner_id t.rows)) [
      | inl absent ↦ ground (
        arith,
        eq_iff p.partner_id "",
        find_row-insert key_of other t.rows (row_of (suc t.sequence) q),
      )
      | inr (row, found) ↦ ground (
        arith,
        eq_iff p.partner_id "",
        eq_iff p.partner_id other,
        find_row-update_rows key_of p.partner_id other (set_columns q) (λ r. refl) t.rows,
      )
    ]
