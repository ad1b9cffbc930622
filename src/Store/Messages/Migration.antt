-- ===== src/Store/Messages/Migration.antt =====
-- internal/repository/schema.go: the migration of messages.job_type that every start runs. The
-- messages of a database that lacks the column get it with the empty default; SQLite's
-- json_extract(payload, '$.job_type') on valid JSON is a parameter, none where it is NULL.
use fidex_go_node.Common.{
  String, Bool, true, Option, none, some, List, [], ◌∷◌, map, ◌≡◌, ◌≢◌, arith, eq_iff, refl,
  if◌then◌else◌, is_empty, All,
}
use fidex_go_node.Errors.{Error, plain, context}
use fidex_go_node.Json.{Body}
use fidex_go_node.Domain.{Message, job_type_process_outbound}
use fidex_go_node.Store.{Fault}
use fidex_go_node.Store.Messages.{Messages}

-- What the driver reports of the five statements, in their order.
pub record Faults : Type 0 where
  pub introspect : Fault
  pub alter : Fault
  pub backfill : Fault
  pub default : Fault
  pub index : Fault

module _ (extract : Body → Option String) where
  -- UPDATE messages SET job_type = json_extract(…) WHERE job_type = '' AND … IS NOT NULL
  abbrev from_payload : Message → Message
  from_payload m =
      if is_empty m.job_type
      then elim (extract m.payload) [ none ↦ m | some t ↦ record m { job_type = t } ]
      else m

  -- UPDATE messages SET job_type = 'process_outbound' WHERE job_type = ''
  abbrev by_default : Message → Message
  by_default m =
      if is_empty m.job_type then record m { job_type = job_type_process_outbound } else m

  abbrev add_column : Message → Message
  add_column m = record m { job_type = "" }

  abbrev over : (Message → Message) → Messages → Messages
  over f t = record t { rows = map f t.rows }

  -- The statements after ALTER TABLE; one that fails leaves what the ones before it have done.
  backfill : Faults → Messages → Messages × Option Error
  backfill faults t = elim faults.backfill [
    | some e ↦ (t, some (context "backfill messages.job_type from payload failed" (plain e)))
    | none ↦ elim faults.default [
      | some e ↦ (
        over from_payload t,
        some (context "backfill messages.job_type default failed" (plain e)),
      )
      | none ↦ (
        over by_default (over from_payload t),
        elim faults.index [
          | none ↦ none
          | some e ↦ some (context "create idx_messages_status_jobtype_created failed" (plain e))
        ],
      )
    ]
  ]

  unfoldable migrate_messages_job_type : Faults → Bool → Messages → Messages × Option Error
  unfolding backfill
  migrate_messages_job_type faults has_column t = elim faults.introspect [
    | some e ↦ (t, some (context "failed to introspect messages columns" (plain e)))
    | none ↦ if has_column then backfill faults t else elim faults.alter [
      | some e ↦ (t, some (context "ALTER TABLE messages ADD COLUMN job_type failed" (plain e)))
      | none ↦ backfill faults (over add_column t)
    ]
  ]

  -- The job type of a row that had none.
  abbrev inferred : Body → String
  inferred payload = elim (extract payload) [
    | none ↦ job_type_process_outbound
    | some t ↦ if is_empty t then job_type_process_outbound else t
  ]

  -- What the migration makes of a row.
  abbrev migrated : Message → Message
  migrated m = if is_empty m.job_type then record m { job_type = inferred m.payload } else m

  row-migrated : (m : Message) → by_default (from_payload m) ≡ migrated m
  row-migrated m = ground arith

  migrated_twice : (m : Message) → migrated (migrated m) ≡ migrated m
  migrated_twice m = ground (
    arith,
    eq_iff m.job_type "",
    eq_iff (inferred m.payload) "",
    eq_iff job_type_process_outbound "",
  )

  map-migrated : (rows : List Message) → map by_default (map from_payload rows) ≡ map migrated rows
  map-migrated [] = refl
  map-migrated (m ∷ rows) = cc (row-migrated m, map-migrated rows)

  map-migrated_twice : (rows : List Message) → map migrated (map migrated rows) ≡ map migrated rows
  map-migrated_twice [] = refl
  map-migrated_twice (m ∷ rows) = cc (migrated_twice m, map-migrated_twice rows)

  migrated-All : (rows : List Message) → All (λ m. m.job_type ≢ "") (map migrated rows)
  migrated-All [] = tt
  migrated-All (m ∷ rows) = (
    ground (
      arith,
      eq_iff m.job_type "",
      eq_iff job_type_process_outbound "",
      λ (t : String). eq_iff t "",
    ),
    migrated-All rows,
  )

  abbrev pub no_faults : Faults
  no_faults = record {
    introspect = none;
    alter = none;
    backfill = none;
    default = none;
    index = none;
  }

  -- A migration without faults leaves no row with an empty job_type: a row that had one keeps it,
  -- and any other gets the one that its payload names, or else process_outbound. Nothing else
  -- changes, and another run of the migration, as at every later start, changes nothing at all.
  migrate_job_type_lem :
      (t : Messages)
      → let once = (migrate_messages_job_type no_faults true t).0 in
        (once ≡ record t { rows = map migrated t.rows })
        × All (λ m. m.job_type ≢ "") once.rows
        × (migrate_messages_job_type no_faults true once ≡ (once, none))
  unfolding migrate_messages_job_type
  migrate_job_type_lem t =
      rw (map-migrated t.rows, map-migrated (map migrated t.rows), map-migrated_twice t.rows)
        (refl, migrated-All t.rows, refl)
