-- ===== src/Examples/Watcher.antt =====
-- The theorems on the directory watcher at concrete inputs.
use fidex_go_node.Common.{
  ℕ, ◌+◌, ◌*◌, ◌≤◌, String, Option, none, some, [], ◌∷◌, ◌≡◌, refl, arith, eq_iff, length, true,
  false, ◌≢◌,
}
use fidex_go_node.Errors.{plain, ok}
use fidex_go_node.Json.{
  Body, json, object, field, end, text, Fields, decode, same_key, probe_job_type,
}
use fidex_go_node.Domain.{queued, outbound, Message}
use fidex_go_node.Store.Table.{find_row}
use fidex_go_node.Store.Messages.{key_of}
use fidex_go_node.Api.Transmit.{decode_transmit, validate_transmit_request}
use fidex_go_node.Watcher.{
  Turn, Watch, Event, op_write, read_file, archive_path, is_json_file, changes, checked,
  read_result, watch_turn,
}
use fidex_go_node.Watcher.Laws.{Ready, row_of, queued_watch, watch_turn_queued}
use fidex_go_node.Watcher.Requeued.{stuck_file_queued_twice}
use fidex_go_node.Watcher.Conservation.{appears, turns, watch_loop, waiting, watch_loop_bounded}
use fidex_go_node.Examples.{sqlite}

abbrev payload : Fields
payload = field "n" (text "1") end

abbrev document : Body
document = json (
    object (
      field "destination_partner_id" (text "node-b")
        (field "document_type" (text "ORDER") (field "payload" (object payload) end))))

abbrev turn_at : ℕ → String → Option String → Turn
turn_at now uuid trouble = record {
  arrival = record {
    now = now;
    uuid = uuid;
    through_map = λ old fs. (fs, true);
    decode_error = plain "bad";
    insert_fault = none;
  };
  read = none;
  rename = trouble;
  copy = trouble;
  remove = none;
}

abbrev written : Event
written = record { name = "fidex/outbox/a.json"; op = op_write ∷ [] }

abbrev outbox : Watch
outbox = record {
  files = ("fidex/outbox/a.json", document) ∷ [];
  messages = record { rows = []; sequence = 0 };
  processed = [];
}

document_valid : (trouble : Option String) → checked (turn_at 9 "u" trouble) document ≡ ok payload
unfolding checked decode_transmit validate_transmit_request decode same_key
document_valid trouble = refl

document_read :
    (trouble : Option String)
    → read_result (turn_at 9 "u" trouble) "fidex/outbox/a.json" outbox.files ≡ ok document
unfolding read_file
document_read trouble = refl

ready : (trouble : Option String) → Ready sqlite (turn_at 9 "u" trouble) written outbox document
unfolding changes is_json_file find_row
ready trouble = record {
  change = refl;
  suffix = refl;
  settled = refl;
  read = document_read trouble;
  fields = payload;
  valid = document_valid trouble;
  insertion = refl;
  named = λ h. ground (arith, h, eq_iff "u" "");
  fresh = refl;
}

watch_turn_queued_example :
    let w' = watch_turn sqlite (turn_at 9 "u" none) written outbox in
    ((row : Message) × (find_row key_of "u" w'.messages.rows ≡ some row)
      × (row.status ≡ queued)
      × (row.direction ≡ outbound)
      × (row.payload ≡ document)
      × ((kind : String) → probe_job_type document ≡ (kind, true) → kind ≢ "" → row.job_type ≡ kind)
      × (probe_job_type document ≡ ("", true) → row.job_type ≡ "process_outbound")
      × ((probe_job_type document).1 ≡ false → row.job_type ≡ "process_outbound"))
    × (read_file (archive_path "u") w'.files ≡ some document)
    × (read_file "fidex/outbox/a.json" w'.files ≡ none)
watch_turn_queued_example =
    watch_turn_queued sqlite (turn_at 9 "u" none) written outbox document (ready none) refl
      (λ h. ground (arith, h, eq_iff (archive_path "u") "fidex/outbox/a.json"))

abbrev later : ℕ
later = 9 + 500 * 1000000

later_valid : checked (turn_at later "v" none) document ≡ ok payload
unfolding checked decode_transmit validate_transmit_request decode same_key
later_valid = refl

later_read : read_result (turn_at later "v" none) "fidex/outbox/a.json" outbox.files ≡ ok document
unfolding read_file
later_read = refl

queued_twice_example :
    let stuck = queued_watch sqlite (turn_at 9 "u" (some "busy")) written outbox document in
    let t =
      (watch_turn sqlite
        (turn_at later "v" none)
        written
        (watch_turn sqlite (turn_at 9 "u" (some "busy")) written outbox)).messages in
    (find_row key_of "u" t.rows
      ≡ some (row_of sqlite (turn_at 9 "u" (some "busy")) "fidex/outbox/a.json" outbox document))
    × (find_row key_of "v" t.rows
        ≡ some (row_of sqlite (turn_at later "v" none) "fidex/outbox/a.json" stuck document))
unfolding find_row
queued_twice_example =
    stuck_file_queued_twice sqlite (turn_at 9 "u" (some "busy")) (turn_at later "v" none) written
      outbox document "busy" "busy" refl refl (ready (some "busy")) payload (omega arith) later_read
      later_valid refl (λ h. ground (arith, h, eq_iff "v" "")) refl
      (λ h. ground (arith, h, eq_iff "v" "u"))

watch_loop_bounded_example :
    let w' =
      watch_loop sqlite
        (appears "fidex/outbox/b.json" document ∷ turns (turn_at 9 "u" none) written ∷ [])
        outbox in
    length w'.messages.rows + waiting w'.files ≤ 0 + waiting outbox.files + 1
watch_loop_bounded_example =
    watch_loop_bounded sqlite
      (appears "fidex/outbox/b.json" document ∷ turns (turn_at 9 "u" none) written ∷ []) outbox
      (refl, refl, tt)
