-- ===== src/Storage.antt =====
-- The log of components/storage: the queue, its counters and the task that writes it to a card. The
-- file system, the clock and the queue are the record Card.
pub mod LogPolicy
pub mod Writer
pub mod Accounting
pub mod Normal
pub mod Lines
mod Examples
use esp32_monitor.Base.{
  ℕ, ◌+◌, Bool, true, false, not, Option, none, some, List, [], ltb, length as list_length,
  if◌then◌else◌, u32, bounded,
}
use esp32_monitor.Esp.{EspErr, esp_ok, no_mem}
use esp32_monitor.Storage.LogPolicy.{
  ContentClass, content_public, content_private, normalize_message,
}

abbrev pub log_tag_capacity : ℕ
log_tag_capacity = 24

abbrev pub log_message_capacity : ℕ
log_message_capacity = 192

pub data LogLevel : Type 0 where
  log_debug log_info log_warning log_error : LogLevel

-- queued_log_entry_t.
pub record LogEntry : Type 0 where
  pub epoch : ℕ
  pub uptime_ms : ℕ
  pub level : LogLevel
  pub tag : List ℕ
  pub message : List ℕ

-- desk_storage_state_t and storage_status, less the number of queued entries.
pub data CardState : Type 0 where
  stopped mounting ready retry_wait : CardState

pub record StorageState : Type 0 where
  pub log_queue : Option (List LogEntry)
  pub task_started : Bool
  pub card_state : CardState
  pub mounted : Bool
  pub last_error : EspErr
  pub written_entries : ℕ
  pub dropped_entries : ℕ

-- The static value of the variables.
abbrev pub initial_storage : StorageState
initial_storage = record {
  log_queue = none;
  task_started = false;
  card_state = stopped;
  mounted = false;
  last_error = esp_ok;
  written_entries = 0;
  dropped_entries = 0;
}

unfoldable pub set_storage_state : CardState → Bool → EspErr → StorageState → StorageState
set_storage_state card_state is_mounted error state = record state {
  card_state = card_state;
  mounted = is_mounted;
  last_error = error;
}

unfoldable pub note_written_entry : StorageState → StorageState
note_written_entry state = record state { written_entries = u32 (state.written_entries + 1) }

unfoldable pub note_dropped_entry : StorageState → StorageState
note_dropped_entry state = record state { dropped_entries = u32 (state.dropped_entries + 1) }

-- Where the queue and the task are created or not.
unfoldable pub start : Bool → Bool → StorageState → StorageState × EspErr
start queue_created task_created state =
    if state.task_started
    then (state, esp_ok)
    else if not queue_created
    then (record state { log_queue = none }, no_mem)
    else if not task_created
    then (record state { log_queue = none; task_started = false }, no_mem)
    else (record state { log_queue = some []; task_started = true }, esp_ok)

-- uxQueueMessagesWaiting, where there is a queue.
unfoldable pub queued_entries : StorageState → ℕ
queued_entries state = elim state.log_queue [ none ↦ 0 | some queue ↦ list_length queue ]

-- The entry that desk_storage_log makes of a tag and of what vsnprintf formats, at a time: the
-- seconds where they are a 32-bit number, and the milliseconds since the start.
abbrev pub entry_of : LogLevel → ContentClass → List ℕ → List ℕ → ℕ → ℕ → LogEntry
entry_of level class tag formatted now uptime = record {
  epoch = if ltb 0xFFFFFFFF now then 0 else now;
  uptime_ms = u32 uptime;
  level = level;
  tag = normalize_message content_public (some tag) log_tag_capacity;
  message = elim class [
    | content_public ↦
        normalize_message content_public (some (bounded log_message_capacity formatted))
          log_message_capacity
    | content_private ↦ normalize_message content_private none log_message_capacity
  ];
}

-- desk_storage_log on pointers that are there; `send` is xQueueSend with no waiting.
unfoldable pub storage_log :
    (List LogEntry → LogEntry → Option (List LogEntry))
    → LogEntry
    → StorageState
    → StorageState × Bool
storage_log send entry state = elim state.log_queue [
  | none ↦ (state, false)
  | some queue ↦ elim (send queue entry) [
    | none ↦ (note_dropped_entry state, false)
    | some queue' ↦ (record state { log_queue = some queue' }, true)
  ]
]
