-- ===== src/Watcher/Requeued.antt =====
-- fs_worker.go: what happens to a document whose file cannot be archived.
use fidex_go_node.Common.{
  ◌+◌, ◌≤◌, String, false, none, some, ◌≡◌, ◌≢◌, arith, refl, eq_iff, eq_refl,
}
use fidex_go_node.Errors.{ok}
use fidex_go_node.Json.{Body, Fields}
use fidex_go_node.Store.{Driver}
use fidex_go_node.Store.Table.{find_row}
use fidex_go_node.Store.Table.Laws.{find_row-insert}
use fidex_go_node.Store.Messages.{key_of}
use fidex_go_node.Watcher.{
  Turn, Watch, Event, archive, checked, read_result, watch_turn, is_recent, last_processed,
  cleanup_processed_files, debounce_delay,
}
use fidex_go_node.Watcher.Laws.{Ready, row_of, queued_watch, watch_turn-Ready}

module _ (driver : Driver) (turn later : Turn) (e : Event) (w : Watch) (b : Body)
    (renaming copying : String) (renamed : turn.rename ≡ some renaming)
    (copied : turn.copy ≡ some copying) (ready : Ready driver turn e w b) where
  abbrev stuck : Watch
  stuck = queued_watch driver turn e w b

  stuck_files : stuck.files ≡ w.files
  unfolding archive
  stuck_files = rw (renamed, copied) refl

  not_recent :
      turn.arrival.now + debounce_delay ≤ later.arrival.now
      → is_recent later.arrival.now (last_processed e.name stuck.processed) ≡ false
  unfolding cleanup_processed_files
  not_recent waited = ground (arith, eq_refl e.name)

  -- When a valid file of the outbox was queued and could neither be renamed nor copied to the
  -- archive, the next event of the file that comes 500 ms later or more queues the same document
  -- a second time, under a second message_id. The file can be read and the insertions meet no
  -- fault both times, and the message_ids are free and differ.
  pub stuck_file_queued_twice :
      (fields : Fields)
      → turn.arrival.now + debounce_delay ≤ later.arrival.now
      → read_result later e.name w.files ≡ ok b
      → checked later b ≡ ok fields
      → later.arrival.insert_fault ≡ none
      → later.arrival.uuid ≢ ""
      → find_row key_of later.arrival.uuid w.messages.rows ≡ none
      → later.arrival.uuid ≢ turn.arrival.uuid
      → let t = (watch_turn driver later e (watch_turn driver turn e w)).messages in
        (find_row key_of turn.arrival.uuid t.rows ≡ some (row_of driver turn e.name w b))
        × (find_row key_of later.arrival.uuid t.rows ≡ some (row_of driver later e.name stuck b))
  stuck_file_queued_twice fields waited read valid sound named fresh other =
      let first = row_of driver turn e.name w b in
      let second = row_of driver later e.name stuck b in
      let seen = find_row-insert key_of later.arrival.uuid w.messages.rows first ready.fresh in
      let free : find_row key_of later.arrival.uuid stuck.messages.rows ≡ none =
        ground (arith, eq_iff turn.arrival.uuid later.arrival.uuid) in
      let again : Ready driver later e stuck b = record {
        change = ready.change;
        suffix = ready.suffix;
        settled = not_recent waited;
        read = rw stuck_files read;
        fields = fields;
        valid = valid;
        insertion = sound;
        named = named;
        fresh = free;
      } in
      rw (watch_turn-Ready driver turn e w b ready, watch_turn-Ready driver later e stuck b again)
        (
          ground (
            arith,
            find_row-insert key_of turn.arrival.uuid stuck.messages.rows second free,
            find_row-insert key_of turn.arrival.uuid w.messages.rows first ready.fresh,
            eq_iff later.arrival.uuid turn.arrival.uuid,
            eq_refl turn.arrival.uuid,
          ),
          ground (
            arith,
            find_row-insert key_of later.arrival.uuid stuck.messages.rows second free,
            eq_refl later.arrival.uuid,
          ),
        )
