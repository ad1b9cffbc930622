-- ===== src/Watcher.antt =====
-- internal/watcher/fs_worker.go: the files of the outbox, and the loop over the file system's
-- events. A file is its path and its contents; what the operating system reports of one turn of the
-- loop is an argument. Two calls of the clock in one turn give the same instant.
pub mod Laws
pub mod Requeued
pub mod Conservation
use fidex_go_node.Common.{
  ℕ, ◌+◌, ◌-◌, ◌*◌, String, Bool, true, false, Option, none, some, List, [], ◌∷◌, ◌++◌, ◌==◌, ◌||◌,
  ◌&&◌, not, same_number, ltb, leb, if◌then◌else◌, select, map, sprint, codes,
}
use fidex_go_node.Errors.{Error, plain, Result, ok, err, map_error, context}
use fidex_go_node.Json.{Body, Fields}
use fidex_go_node.Domain.{Message, queued, outbound}
use fidex_go_node.Store.{Fault, Driver}
use fidex_go_node.Store.Messages.{Messages, create}
use fidex_go_node.Api.Inbound.{draft}
use fidex_go_node.Api.Transmit.{Arrival, decode_transmit, validate_transmit_request}

abbrev lower_code : ℕ → ℕ
lower_code c = if leb b'A' c && leb c b'Z' then c + 32 else c

same_codes : List ℕ → List ℕ → Bool
same_codes [] [] = true
same_codes [] (d ∷ ds) = false
same_codes (c ∷ cs) [] = false
same_codes (c ∷ cs) (d ∷ ds) = same_number c d && same_codes cs ds

ends_with : List ℕ → List ℕ → Bool
unfolding same_codes
ends_with [] t = same_codes [] t
ends_with (c ∷ cs) t = let later = ends_with cs t in same_codes (c ∷ cs) t || later

-- isJSONFile. No letter outside of ASCII has one of `.json` as its lower case.
unfoldable pub is_json_file : String → Bool
unfolding ends_with
is_json_file path = ends_with (map lower_code (codes path)) (codes ".json")

-- The files by path.
abbrev pub Files : Type 0
Files = List (String × Body)

unfoldable pub read_file : String → Files → Option Body
read_file path [] = none
read_file path ((p, b) ∷ files) = if p == path then some b else read_file path files

unfoldable pub remove_file : String → Files → Files
remove_file path [] = []
remove_file path ((p, b) ∷ files) =
    let rest = remove_file path files in if p == path then rest else (p, b) ∷ rest

abbrev pub archive_path : String → String
archive_path message_id = sprint ("fidex/archive/" ∷ message_id ∷ ".json" ∷ [])

-- What one turn of the loop meets. A fault of `read` is an error of os.ReadFile on a file that is
-- there; `copy` is that of copyFile.
pub record Turn : Type 0 where
  pub arrival : Arrival
  pub read : Fault
  pub rename : Fault
  pub copy : Fault
  pub remove : Fault

pub record Watch : Type 0 where
  pub files : Files
  pub messages : Messages
  pub processed : List (String × ℕ)

-- The file goes to the archive: renamed, or copied and removed, where the removal may fail.
abbrev moved_file : String → String → Body → Files → Files
moved_file from to b files = (to, b) ∷ remove_file to (remove_file from files)

abbrev copied_file : String → Body → Files → Files
copied_file to b files = (to, b) ∷ remove_file to files

unfoldable pub archive : Turn → String → Body → String → Files → Files × Option Error
archive turn path b message_id files =
    let to = archive_path message_id in
    elim turn.rename [
      | none ↦ (moved_file path to b files, none)
      | some e ↦ elim turn.copy [
        | some e' ↦ (files, some (context "failed to archive file" (plain e')))
        | none ↦ (
          elim turn.remove [
            | none ↦ moved_file path to b files
            | some e'' ↦ copied_file to b files
          ],
          none,
        )
      ]
    ]

-- os.ReadFile
abbrev pub read_result : Turn → String → Files → Result Body
read_result turn path files = elim turn.read [
  | some e ↦ err (plain e)
  | none ↦ elim (read_file path files) [
    | none ↦ err (plain (sprint ("open " ∷ path ∷ ": no such file or directory" ∷ [])))
    | some b ↦ ok b
  ]
]

-- The check of the contents: json.Unmarshal into a TransmitRequest, and validateTransmitRequest.
unfoldable pub checked : Turn → Body → Result Fields
checked turn b =
    let (r, fits) = decode_transmit turn.arrival b in
    if fits
    then map_error (context "validation failed") (validate_transmit_request r)
    else err (context "invalid JSON in file" turn.arrival.decode_error)

module _ (driver : Driver) (turn : Turn) (path : String) where
  unfoldable pub file_stored : Watch → Body → Messages × Result Message → Watch × Option Error
  unfolding archive
  file_stored w b (messages, err e) =
      (record w { messages = messages }, some (context "failed to insert message into database" e))
  file_stored w b (messages, ok row) =
      let (files, problem) = archive turn path b turn.arrival.uuid w.files in
      (record w { messages = messages; files = files }, problem)

  -- The file's contents become a message as they are.
  unfoldable pub insert_file : Watch → Body → Watch × Option Error
  unfolding file_stored
  insert_file w b =
      let a = turn.arrival in
      file_stored w b
        (create driver a.now a.insert_fault w.messages (draft a.uuid outbound queued b a.now))

  unfoldable pub store_file : Watch → Body → Result Fields → Watch × Option Error
  unfolding insert_file
  store_file w b (err e) = (w, some e)
  store_file w b (ok fields) = insert_file w b

  unfoldable pub process_read : Watch → Result Body → Watch × Option Error
  unfolding store_file
  process_read w (err e) = (w, some (context "failed to read file" e))
  process_read w (ok b) = store_file w b (checked turn b)

  -- processFile
  unfoldable pub process_file : Watch → Watch × Option Error
  unfolding process_read
  process_file w = process_read w (read_result turn path w.files)

-- 500 milliseconds and 5 minutes, in nanoseconds.
abbrev pub debounce_delay : ℕ
debounce_delay = 500 * 1000000

abbrev max_age : ℕ
max_age = 5 * 60 * 1000000000

abbrev pub last_processed : String → List (String × ℕ) → Option ℕ
last_processed name [] = none
last_processed name ((n, at) ∷ rest) = if n == name then some at else last_processed name rest

-- cleanupProcessedFiles
unfoldable pub cleanup_processed_files : ℕ → List (String × ℕ) → List (String × ℕ)
cleanup_processed_files now [] = []
cleanup_processed_files now ((n, at) ∷ rest) =
    let later = cleanup_processed_files now rest in
    if ltb at (now - max_age) then later else (n, at) ∷ later

-- An assignment to the map.
abbrev pub mark : String → ℕ → List (String × ℕ) → List (String × ℕ)
mark name now entries = (name, now) ∷ select (λ e. not (e.0 == name)) entries

abbrev pub is_recent : ℕ → Option ℕ → Bool
is_recent now none = false
is_recent now (some at) = ltb (now - at) debounce_delay

pub data Operation : Type 0 where
  op_create op_write op_remove op_rename op_chmod : Operation

-- An event of fsnotify: a path and the operations that it reports together.
pub record Event : Type 0 where
  pub name : String
  pub op : List Operation

abbrev is_change : Operation → Bool
is_change op_create = true
is_change op_write = true
is_change _ = false

unfoldable pub changes : List Operation → Bool
changes [] = false
changes (o ∷ os) = is_change o || changes os

module _ (driver : Driver) where
  abbrev marked : String → ℕ → Watch → Watch
  marked name now w = record w { processed = mark name now w.processed }

  abbrev cleaned : ℕ → Watch → Watch
  cleaned now w = record w { processed = cleanup_processed_files now w.processed }

  -- One turn of watchLoop; an error of processFile is only logged.
  unfoldable pub watch_turn : Turn → Event → Watch → Watch
  watch_turn turn e w =
      let now = turn.arrival.now in
      let done = (process_file driver turn e.name (marked e.name now w)).0 in
      if changes e.op && is_json_file e.name
      then if is_recent now (last_processed e.name w.processed) then w else cleaned now done
      else w
