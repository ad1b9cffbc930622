-- ===== src/Store/Messages/Create.antt =====
-- message_repository.go: what Create does on every branch.
use fidex_go_node.Common.{
  ℕ, suc, ◌≤◌, String, false, none, [], ◌∷◌, ◌++◌, ◌≡◌, ◌≢◌, ◌⊎◌, ◌↔◌, inl, inr, arith, eq_iff,
  eq_refl, All-append, All-mono,
}
use fidex_go_node.Errors.{duplicate_message_id, Result, ok, err, IsErr}
use fidex_go_node.Json.{Body, is_empty_body}
use fidex_go_node.Domain.{Message, job_type_process_outbound}
use fidex_go_node.Store.{Fault, Driver, or_now}
use fidex_go_node.Store.Table.{find_row}
use fidex_go_node.Store.Messages.{Messages, create, resolve_job_type, get_by_id, key_of}
use fidex_go_node.Store.Table.Laws.{AreDistinct-append, find_row-IsFresh, find_row-append}
use fidex_go_node.Store.Messages.Rows.{IsComplete, IsValid}

resolve_job_type-ne-empty :
    (explicit : String) (payload : Body) → resolve_job_type explicit payload ≢ ""
unfolding resolve_job_type
resolve_job_type-ne-empty explicit payload =
    ground
      (arith, eq_iff explicit "", eq_iff job_type_process_outbound "", λ (t : String). eq_iff t "")

abbrev pub IsDuplicate : Result Message → Type 0
IsDuplicate (err (duplicate_message_id text)) = Unit
IsDuplicate _ = ⊥

-- The row that Create writes.
abbrev pub stored : ℕ → Messages → Message → Message
stored now t m = record m {
  id = suc t.sequence;
  created_at = or_now m.created_at now;
  job_type = resolve_job_type m.job_type m.payload;
}

abbrev pub appended : Messages → Message → Messages
appended t m = record { rows = t.rows ++ m ∷ []; sequence = suc t.sequence }

module _ (driver : Driver) (now : ℕ) (fault : Fault) (t : Messages) (m : Message) where
  -- Create either stores the row, which has a message_id that the table lacks, or returns an error
  -- and leaves the table as it was.
  pub create_cases :
      ((create driver now fault t m ≡ (appended t (stored now t m), ok (stored now t m)))
        × (fault ≡ none)
        × (find_row key_of m.message_id t.rows ≡ none)
        × (m.message_id ≢ "")
        × (is_empty_body m.payload ≡ false))
      ⊎ (((create driver now fault t m).0 ≡ t) × IsErr (create driver now fault t m).1)
  unfolding create
  create_cases = ground (arith, eq_iff m.message_id "")

  -- Create keeps the table well-formed: no message_id stands in two rows, no row id is above the
  -- sequence, and every row has a message_id, a payload and a job_type.
  pub create-IsValid : IsValid t → IsValid (create driver now fault t m).0
  create-IsValid v = elim create_cases [
    | inr (same, _) ↦ rw same v
    | inl (same, _, absent, named, full) ↦ rw same (record {
      distinct =
          AreDistinct-append key_of t.rows (stored now t m) v.distinct
            (find_row-IsFresh key_of _ t.rows absent);
      numbered =
          All-append (λ x. x.id ≤ suc t.sequence) t.rows (stored now t m ∷ [])
            (All-mono (λ x h. omega arith) t.rows v.numbered) (omega arith, tt);
      complete =
          All-append IsComplete t.rows (stored now t m ∷ []) v.complete
            ((named, full, resolve_job_type-ne-empty m.job_type m.payload), tt);
    })
  ]

  -- When the driver reports no fault and the message has an id and a payload, Create returns
  -- ErrDuplicateMessageID exactly when the message_id is taken; otherwise it returns the row.
  pub create-IsDuplicate_iff :
      fault ≡ none
      → m.message_id ≢ ""
      → is_empty_body m.payload ≡ false
      → (IsDuplicate (create driver now fault t m).1 ↔ (find_row key_of m.message_id t.rows ≢ none))
        × (((create driver now fault t m).1 ≡ ok (stored now t m))
            ↔ (find_row key_of m.message_id t.rows ≡ none))
  unfolding create
  create-IsDuplicate_iff f n b =
      ground (arith, eq_iff m.message_id "", driver.unique_error_reported)

  -- A created message is read back by its message_id exactly as Create returned it.
  create-get_by_id :
      (row : Message)
      → (create driver now fault t m).1 ≡ ok row
      → get_by_id none (create driver now fault t m).0 m.message_id ≡ ok row
  unfolding get_by_id
  create-get_by_id row h = ground (
    arith,
    create_cases,
    find_row-append key_of m.message_id t.rows (stored now t m),
    eq_refl m.message_id,
    eq_iff m.message_id "",
  )
