-- ===== src/Watcher/Laws.antt =====
-- fs_worker.go: what one turn of the loop does with a file.
use fidex_go_node.Common.{
  String, true, false, none, some, [], ◌∷◌, ◌≡◌, ◌≢◌, ◌==◌, ◌⊎◌, inl, inr, arith, refl, eq_iff,
  eq_refl, if◌then◌else◌,
}
use fidex_go_node.Errors.{Result, ok, err, IsErr, Result-cases}
use fidex_go_node.Json.{Body, raw, json, Fields, decode, is_empty_body, probe_job_type}
use fidex_go_node.Api.Transmit.{decode_transmit}
use fidex_go_node.Domain.{Message, queued, outbound}
use fidex_go_node.Store.{Driver}
use fidex_go_node.Store.Table.{find_row}
use fidex_go_node.Store.Table.Laws.{find_row-insert}
use fidex_go_node.Store.Messages.{Messages, key_of, create, resolve_job_type}
use fidex_go_node.Store.Messages.Create.{stored, appended, create_cases}
use fidex_go_node.Api.Inbound.{draft}
use fidex_go_node.Watcher.{
  Files, read_file, remove_file, archive, archive_path, Turn, Watch, checked, insert_file,
  store_file, file_stored, process_read, process_file, read_result, is_json_file, changes,
  is_recent, last_processed, Event, watch_turn, mark, cleanup_processed_files,
}

module _ (from : String) where
  read_file-remove_file :
      (path : String) (files : Files)
      → read_file path (remove_file from files)
        ≡ (if from == path then none else read_file path files)
  unfolding read_file remove_file
  read_file-remove_file path [] = ground arith
  read_file-remove_file path ((p, b) ∷ files) =
      ground
        (arith, read_file-remove_file path files, eq_iff p from, eq_iff p path, eq_iff from path)

module _ (driver : Driver) (turn : Turn) (path : String) (w : Watch) where
  -- The row that a file with these contents becomes.
  abbrev pub row_of : Body → Message
  row_of b =
      stored turn.arrival.now w.messages
        (draft turn.arrival.uuid outbound queued b turn.arrival.now)

  -- The file was read, its contents are valid, and they are now a row.
  pub record Inserted (w' : Watch) : Type 0 where
    pub contents : Body
    pub fields : Fields
    pub read : read_result turn path w.files ≡ ok contents
    pub valid : checked turn contents ≡ ok fields
    pub fresh : find_row key_of turn.arrival.uuid w.messages.rows ≡ none
    pub rows : w'.messages ≡ appended w.messages (row_of contents)
    pub files : w'.files ≡ (archive turn path contents turn.arrival.uuid w.files).0

  abbrev Untouched : Watch → Type 0
  Untouched w' = (w'.messages ≡ w.messages) × (w'.files ≡ w.files)

  file_stored-IsErr :
      (b : Body) (made : Messages × Result Message)
      → made.0 ≡ w.messages
      → IsErr made.1
      → Untouched (file_stored driver turn path w b made).0
  unfolding file_stored
  file_stored-IsErr b (t, err e) same failed = (same, refl)
  file_stored-IsErr b (t, ok row) same failed = elim failed [ ]

  insert_file_cases :
      (b : Body) (fields : Fields)
      → read_result turn path w.files ≡ ok b
      → checked turn b ≡ ok fields
      → Inserted (insert_file driver turn path w b).0
        ⊎ Untouched (insert_file driver turn path w b).0
  unfolding insert_file file_stored
  insert_file_cases b fields read valid =
      let made =
        create_cases driver turn.arrival.now turn.arrival.insert_fault w.messages
          (draft turn.arrival.uuid outbound queued b turn.arrival.now) in
      elim made [
        | inr (same, failed) ↦ inr (file_stored-IsErr b _ same failed)
        | inl (made, _, fresh, named, full) ↦ inl record {
          contents = b;
          fields = fields;
          read = read;
          valid = valid;
          fresh = fresh;
          rows = rw made refl;
          files = rw made refl;
        }
      ]

  pub process_file_cases :
      Inserted (process_file driver turn path w).0 ⊎ Untouched (process_file driver turn path w).0
  unfolding process_file process_read store_file
  process_file_cases = elim (Result-cases (read_result turn path w.files)) [
    | inr (e, bad) ↦ inr (rw bad (refl, refl))
    | inl (b, read) ↦ elim (Result-cases (checked turn b)) [
      | inr (e, bad) ↦ inr (rw (read, bad) (refl, refl))
      | inl (fields, valid) ↦ rw (read, valid) (insert_file_cases b fields read valid)
    ]
  ]

checked-filled :
    (turn : Turn) (b : Body) (fields : Fields)
    → checked turn b ≡ ok fields
    → is_empty_body b ≡ false
unfolding checked decode_transmit decode
checked-filled turn (raw t) fields h = ground arith
checked-filled turn (json v) fields h = refl

job_type_named :
    (b : Body)
    → is_empty_body b ≡ false
    → (kind : String) → probe_job_type b ≡ (kind, true)
    → kind ≢ ""
    → resolve_job_type "" b ≡ kind
unfolding resolve_job_type
job_type_named b full kind read named = ground (arith, eq_iff kind "")

job_type_missing :
    (b : Body) → probe_job_type b ≡ ("", true) → resolve_job_type "" b ≡ "process_outbound"
unfolding resolve_job_type
job_type_missing b read = ground (arith, eq_iff (probe_job_type b).0 "")

job_type_unread :
    (b : Body) → (probe_job_type b).1 ≡ false → resolve_job_type "" b ≡ "process_outbound"
unfolding resolve_job_type
job_type_unread b unread = ground arith

module _ (driver : Driver) (turn : Turn) (e : Event) (w : Watch) (b : Body) where
  -- A change of a JSON file that was not processed lately, that can be read and is valid, with
  -- an insertion that meets no fault and a message_id that is free.
  pub record Ready : Type 0 where
    pub change : changes e.op ≡ true
    pub suffix : is_json_file e.name ≡ true
    pub settled : is_recent turn.arrival.now (last_processed e.name w.processed) ≡ false
    pub read : read_result turn e.name w.files ≡ ok b
    pub fields : Fields
    pub valid : checked turn b ≡ ok fields
    pub insertion : turn.arrival.insert_fault ≡ none
    pub named : turn.arrival.uuid ≢ ""
    pub fresh : find_row key_of turn.arrival.uuid w.messages.rows ≡ none

  -- What such a turn leaves.
  abbrev pub queued_watch : Watch
  queued_watch = record {
    files = (archive turn e.name b turn.arrival.uuid w.files).0;
    messages = appended w.messages (row_of driver turn e.name w b);
    processed = cleanup_processed_files turn.arrival.now (mark e.name turn.arrival.now w.processed);
  }

  create_ready :
      Ready
      → create driver turn.arrival.now turn.arrival.insert_fault w.messages
          (draft turn.arrival.uuid outbound queued b turn.arrival.now)
        ≡ (appended w.messages (row_of driver turn e.name w b), ok (row_of driver turn e.name w b))
  unfolding create
  create_ready r =
      let full = checked-filled turn b r.fields r.valid in
      let free = r.fresh in
      let sound = r.insertion in let named = r.named in ground (arith, eq_iff turn.arrival.uuid "")

  pub watch_turn-Ready : Ready → watch_turn driver turn e w ≡ queued_watch
  unfolding watch_turn process_file process_read store_file insert_file file_stored
  watch_turn-Ready r = rw (r.change, r.suffix, r.settled, r.read, r.valid, create_ready r) refl

  -- A change of a valid JSON file of the outbox that was not processed in the last 500 ms becomes,
  -- when nothing fails, a QUEUED outbound row with the file's contents as they are, whose job_type
  -- is the text that stands under `job_type` in the contents, if there is one and it is not empty,
  -- and `process_outbound` where there is none, or one that is empty or no text; the file stands in the archive under the message's id
  -- afterwards, and no longer in the outbox.
  pub watch_turn_queued :
      Ready
      → turn.rename ≡ none
      → archive_path turn.arrival.uuid ≢ e.name
      → let w' = watch_turn driver turn e w in
        ((row : Message) × (find_row key_of turn.arrival.uuid w'.messages.rows ≡ some row)
          × (row.status ≡ queued)
          × (row.direction ≡ outbound)
          × (row.payload ≡ b)
          × ((kind : String) → probe_job_type b ≡ (kind, true) → kind ≢ "" → row.job_type ≡ kind)
          × (probe_job_type b ≡ ("", true) → row.job_type ≡ "process_outbound")
          × ((probe_job_type b).1 ≡ false → row.job_type ≡ "process_outbound"))
        × (read_file (archive_path turn.arrival.uuid) w'.files ≡ some b)
        × (read_file e.name w'.files ≡ none)
  unfolding archive read_file
  watch_turn_queued r renamed apart =
      rw (watch_turn-Ready r, renamed)
        (
          (
            row_of driver turn e.name w b,
            ground (
              arith,
              find_row-insert key_of turn.arrival.uuid w.messages.rows
                  (row_of driver turn e.name w b) r.fresh,
              eq_refl turn.arrival.uuid,
            ),
            refl,
            refl,
            refl,
            job_type_named b (checked-filled turn b r.fields r.valid),
            job_type_missing b,
            job_type_unread b,
          ),
          ground (arith, eq_refl (archive_path turn.arrival.uuid)),
          ground (
            arith,
            eq_iff (archive_path turn.arrival.uuid) e.name,
            eq_refl e.name,
            read_file-remove_file (archive_path turn.arrival.uuid) e.name
                (remove_file e.name w.files),
            read_file-remove_file e.name e.name w.files,
          ),
        )
