-- ===== src/Watcher/Conservation.antt =====
-- fs_worker.go: how many messages a run of the watcher makes of the files that appear in its outbox.
use fidex_go_node.Common.{
  ℕ, suc, ◌+◌, ◌≤◌, ◌<◌, String, Bool, true, false, none, some, List, [], ◌∷◌, ◌≡◌, inl, inr, arith,
  refl, eq_iff, if◌then◌else◌, length, length-append, Option-cases,
}
use text.Mathlib.Text.{starts_with}
use text.Mathlib.TextPositions.{starts_with-append}
use fidex_go_node.Errors.{ok}
use fidex_go_node.Json.{Body}
use fidex_go_node.Store.{Driver}
use fidex_go_node.Watcher.{
  Files, read_file, remove_file, archive, archive_path, Turn, Watch, process_file, read_result,
  Event, watch_turn, mark,
}
use fidex_go_node.Watcher.Laws.{row_of, Inserted, process_file_cases}

abbrev archived : String → Bool
archived path = starts_with path "fidex/archive/"

-- How many files there are outside of the archive.
abbrev pub waiting : Files → ℕ
waiting [] = 0
waiting ((p, b) ∷ files) = let rest = waiting files in if archived p then rest else suc rest

-- Another program writes a file of the outbox, or the watcher's loop makes a turn.
pub data Happening : Type 0 where
  appears : String → Body → Happening
  turns : Turn → Event → Happening

abbrev appearances : List Happening → ℕ
appearances [] = 0
appearances (appears path b ∷ hs) = suc (appearances hs)
appearances (turns turn e ∷ hs) = appearances hs

-- Files can be renamed into the archive, and an event names a file outside of it.
abbrev Archives : List Happening → Type 0
Archives [] = Unit
Archives (appears path b ∷ hs) = Archives hs
Archives (turns turn e ∷ hs) = (turn.rename ≡ none) × (archived e.name ≡ false) × Archives hs

module _ (driver : Driver) where
  unfoldable pub happen : Happening → Watch → Watch
  happen (appears path b) w = record w { files = (path, b) ∷ remove_file path w.files }
  happen (turns turn e) w = watch_turn driver turn e w

  abbrev pub watch_loop : List Happening → Watch → Watch
  watch_loop [] w = w
  watch_loop (h ∷ hs) w = watch_loop hs (happen h w)

waiting-remove_file :
    (path : String) (files : Files) → waiting (remove_file path files) ≤ waiting files
unfolding remove_file
waiting-remove_file path [] = omega arith
waiting-remove_file path ((p, b) ∷ files) = ground (arith, waiting-remove_file path files)

waiting-taken :
    (path : String) (files : Files) (b : Body)
    → archived path ≡ false
    → read_file path files ≡ some b
    → waiting (remove_file path files) < waiting files
unfolding remove_file read_file
waiting-taken path [] b out h = ground arith
waiting-taken path ((p, c) ∷ files) b out h =
    ground (arith, waiting-taken path files b out, waiting-remove_file path files, eq_iff p path)

archive_path-archived : (id : String) → archived (archive_path id) ≡ true
archive_path-archived id = starts_with-append "fidex/archive/" _

found :
    (turn : Turn) (path : String) (w : Watch) (b : Body)
    → read_result turn path w.files ≡ ok b
    → read_file path w.files ≡ some b
found turn path w b h =
    ground (arith, Option-cases turn.read, Option-cases (read_file path w.files))

module _ (driver : Driver) where
  abbrev total : Watch → ℕ
  total w = length w.messages.rows + waiting w.files

  Inserted-total :
      (turn : Turn) (path : String) (w w' : Watch)
      → turn.rename ≡ none
      → archived path ≡ false
      → Inserted driver turn path w w'
      → total w' ≤ total w
  unfolding archive
  Inserted-total turn path w w' renamed out i =
      let files = i.files in
      let rows = i.rows in
      let to = archive_path turn.arrival.uuid in
      let there : read_file path w.files ≡ some i.contents = found turn path w i.contents i.read in
      let fewer = waiting-taken path w.files i.contents out there in
      let kept = waiting-remove_file to (remove_file path w.files) in
      let inside = archive_path-archived turn.arrival.uuid in
      let added = length-append w.messages.rows (row_of driver turn path w i.contents ∷ []) in
      let now_waiting : waiting w'.files ≡ waiting (remove_file to (remove_file path w.files)) =
        rw (files, renamed, inside) refl in
      let now_queued : length w'.messages.rows ≡ length w.messages.rows + 1 = rw rows added in
      omega (arith, fewer, kept, now_waiting, now_queued)

  turn_total :
      (turn : Turn) (e : Event) (w : Watch)
      → turn.rename ≡ none
      → archived e.name ≡ false
      → total (watch_turn driver turn e w) ≤ total w
  unfolding watch_turn
  turn_total turn e w renamed out =
      let start : Watch = record w { processed = mark e.name turn.arrival.now w.processed } in
      let step : total (process_file driver turn e.name start).0 ≤ total w =
        elim (process_file_cases driver turn e.name start) [
          | inl i ↦ Inserted-total turn e.name start _ renamed out i
          | inr (messages, files) ↦ rw (messages, files) (omega arith)
        ] in
      ground (arith, step)

  -- However the events come, the watcher never queues more messages than files have appeared in
  -- the outbox or stood there at the start, as long as files can be renamed into the archive: with
  -- the files that are left outside of the archive, the count of messages grows by no more than one
  -- for each file that appears.
  pub watch_loop_bounded :
      (hs : List Happening) (w : Watch)
      → Archives hs
      → let w' = watch_loop driver hs w in
        length w'.messages.rows + waiting w'.files
        ≤ length w.messages.rows + waiting w.files + appearances hs
  unfolding happen
  watch_loop_bounded [] w a = omega arith
  watch_loop_bounded (appears path b ∷ hs) w a =
      let later =
        watch_loop_bounded hs (record w { files = (path, b) ∷ remove_file path w.files }) a in
      let fewer = waiting-remove_file path w.files in ground (arith, later, fewer)
  watch_loop_bounded (turns turn e ∷ hs) w (renamed, out, a) =
      let later = watch_loop_bounded hs (watch_turn driver turn e w) a in
      let step = turn_total turn e w renamed out in omega (arith, later, step)
