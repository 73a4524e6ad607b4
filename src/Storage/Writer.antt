-- ===== src/Storage/Writer.antt =====
-- storage_task: one round of the loop on the log, on a card that is mounted.
use esp32_monitor.Base.{
  ℕ, ◌+◌, ◌*◌, Bool, true, false, not, Option, none, some, List, [], ◌∷◌, ◌&&◌, ◌||◌, ltb,
  if◌then◌else◌, length as list_length, text, same_bytes, u32, bounded,
}
use esp32_monitor.Esp.{EspErr, esp_ok, fail, is_esp_ok}
use esp32_monitor.Storage.{
  LogEntry, StorageState, mounting, ready, retry_wait, set_storage_state, note_written_entry,
  note_dropped_entry,
}
use esp32_monitor.Storage.LogPolicy.{
  LocalDate, bucket_key, make_filename, should_rotate, bucket_key_size,
}

abbrev pub log_path_capacity : ℕ
log_path_capacity = 160

abbrev pub log_flush_entry_count : ℕ
log_flush_entry_count = 8

abbrev pub log_rotate_bytes : ℕ
log_rotate_bytes = 2 * 1024 * 1024

abbrev pub log_directory : List ℕ
log_directory = text "/sdcard/desk_console/logs"

-- What the file system and the clock answer in a round.
pub record Card : Type 0 where
  pub localtime : ℕ → Option LocalDate
  -- fopen of a path to append, fseek and ftell: the bytes that are there, or `none` for NULL.
  pub open_append : List ℕ → Option ℕ
  -- fprintf of a line: the bytes written, or `none` for an error.
  pub print_line : LogEntry → Option ℕ
  pub flushes : Bool

-- The variables of the loop; whether a file is open.
pub record Writer : Type 0 where
  pub file_open : Bool
  pub active_bucket : List ℕ
  pub current_bytes : ℕ
  pub segment : ℕ
  pub entries_since_flush : ℕ
  pub card_healthy : Bool

-- Before the loop.
abbrev pub new_writer : Writer
new_writer = record {
  file_open = false;
  active_bucket = [];
  current_bytes = 0;
  segment = 0;
  entries_since_flush = 0;
  card_healthy = true;
}

-- The file that the entry of a bucket goes to begins anew where the bucket changes.
abbrev pub enter_bucket : List ℕ → Writer → Writer
enter_bucket bucket writer =
    if same_bytes writer.active_bucket bucket then writer else record writer {
      file_open = false;
      active_bucket = bounded bucket_key_size bucket;
      segment = 0;
      current_bytes = 0;
    }

abbrev pub estimated_bytes : LogEntry → ℕ
estimated_bytes entry = list_length entry.tag + list_length entry.message + 64

abbrev pub rotate : LogEntry → Writer → Writer
rotate entry writer =
    if writer.file_open
      && should_rotate writer.current_bytes (estimated_bytes entry) log_rotate_bytes
    then record writer { file_open = false; segment = u32 (writer.segment + 1); current_bytes = 0 }
    else writer

module _ (card : Card) (boot_id : ℕ) where
  abbrev pub with_file : Option ℕ → Writer → Writer
  with_file none writer = record writer { card_healthy = false }
  with_file (some bytes) writer = record writer { file_open = true; current_bytes = bytes }

  abbrev pub open_path : Option (List ℕ) → Option ℕ
  open_path none = none
  open_path (some path) = card.open_append path

  -- open_log_file, where no file is open.
  unfoldable pub open_log_file : LogEntry → Writer → Writer
  open_log_file entry writer =
      if writer.file_open
      then writer
      else with_file
          (open_path (
            make_filename card.localtime log_directory entry.epoch boot_id writer.segment
              log_path_capacity))
          writer

  abbrev pub flush_entries : Writer → Writer
  flush_entries writer =
      if ltb writer.entries_since_flush log_flush_entry_count
      then writer
      else record writer { entries_since_flush = 0; card_healthy = card.flushes }

  -- write_log_entry and the count of entries since the last flush.
  abbrev pub written_line : Option ℕ → Writer → StorageState → Writer × StorageState
  written_line none writer state =
      (record writer { card_healthy = false }, note_dropped_entry state)
  written_line (some bytes) writer state = (
    flush_entries (record writer {
      current_bytes = writer.current_bytes + bytes;
      entries_since_flush = writer.entries_since_flush + 1;
    }),
    note_written_entry state,
  )

  unfoldable pub write_entry : LogEntry → Writer → StorageState → Writer × StorageState
  write_entry entry writer state =
      if writer.file_open
      then written_line (card.print_line entry) writer state
      else (writer, note_dropped_entry state)

  abbrev pub write_to_bucket :
      LogEntry → Option (List ℕ) → Writer → StorageState → Writer × StorageState
  write_to_bucket entry none writer state = (writer, note_dropped_entry state)
  write_to_bucket entry (some bucket) writer state =
      write_entry entry (open_log_file entry (rotate entry (enter_bucket bucket writer))) state

  -- A round with an entry received, and one without.
  unfoldable pub handle_entry : LogEntry → Writer → StorageState → Writer × StorageState
  handle_entry entry writer state =
      write_to_bucket entry (bucket_key card.localtime entry.epoch) writer state

  abbrev pub handle_silence : Writer → Writer
  handle_silence writer = record writer {
    entries_since_flush = 0;
    card_healthy = not writer.file_open || card.flushes;
  }

  -- A round of the loop: the first entry of the queue, where there is one.
  unfoldable pub write_round : Writer → StorageState → Writer × StorageState
  write_round writer state = elim state.log_queue [
    | none ↦ (handle_silence writer, state)
    | some [] ↦ (handle_silence writer, state)
    | some (entry ∷ queue) ↦ handle_entry entry writer (record state { log_queue = some queue })
  ]

-- mount_card, by the results of its calls in their order and of the four directories, with the
-- first that is not ESP_OK; then the variables of the loop, or a wait.
unfoldable pub mount_card : EspErr → Bool → StorageState → StorageState × EspErr
mount_card result directories state =
    let begun = set_storage_state mounting false esp_ok state in
    if not (is_esp_ok result)
    then (set_storage_state retry_wait false result begun, result)
    else if not directories
    then (set_storage_state retry_wait false fail begun, fail)
    else (set_storage_state ready true esp_ok begun, esp_ok)

-- The end of the loop on a card that is not healthy.
unfoldable pub give_up : StorageState → StorageState
give_up state = set_storage_state retry_wait false fail state
