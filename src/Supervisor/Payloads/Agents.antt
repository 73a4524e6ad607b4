-- ===== src/Supervisor/Payloads/Agents.antt =====
-- The handlers of the state of the coding agents and of their tasks.
use esp32_monitor.Base.{
  ℕ, ◌-◌, Bool, true, false, not, Option, none, some, List, [], ◌∷◌, ◌++◌, ltb, leb, ◌==◌, ◌&&◌,
  if◌then◌else◌, length, replicate, text, bounded, same_bytes, u8, u16,
}
use esp32_monitor.Base.Options.{◌>>=◌, ◌>>◌, require}
use esp32_monitor.Json.{Cjson, get_item, as_array}
use esp32_monitor.AppModel.{
  AppState, AiState, AiProviderState, AiTaskSlot, AiTaskStatus, ai_idle, ai_running,
  ai_waiting_permission, ai_waiting_input, ai_completed, ai_failed, no_ai, no_slot, revised,
  ai_task_slot_count, ai_provider_count,
}
use esp32_monitor.Supervisor.Payloads.{
  json_read_u32, parse_json_object, parse_ai_status, uint16_max, uint32_max,
}
use esp32_monitor.Supervisor.Payloads.States.{string_item, boolean_item}

-- The index of a provider.
pub data Agent : Type 0 where
  codex_agent claude_agent : Agent

abbrev pub agent_of : List ℕ → Option Agent
agent_of identifier =
    if same_bytes identifier (text "codex")
    then some codex_agent
    else if same_bytes identifier (text "claude")
    then some claude_agent
    else none

abbrev pub display_name : Agent → List ℕ
display_name codex_agent = text "Codex"
display_name claude_agent = text "Claude Code"

-- The state that is built, and `seen`.
pub record Progress : Type 0 where
  pub built : AiState
  pub codex_seen : Bool
  pub claude_seen : Bool

abbrev pub is_seen : Agent → Progress → Bool
is_seen codex_agent progress = progress.codex_seen
is_seen claude_agent progress = progress.claude_seen

abbrev pub put_provider : Agent → AiProviderState → Progress → Progress
put_provider codex_agent state progress = record progress {
  built = record progress.built { codex = state };
  codex_seen = true;
}
put_provider claude_agent state progress = record progress {
  built = record progress.built { claude = state };
  claude_seen = true;
}

abbrev pub value_of : AiTaskStatus → ℕ
value_of ai_idle = 0
value_of ai_running = 1
value_of ai_waiting_permission = 2
value_of ai_waiting_input = 3
value_of ai_completed = 4
value_of ai_failed = 5

-- Whether memcmp finds no difference between two arrays of slots.
abbrev pub same_slot : AiTaskSlot → AiTaskSlot → Bool
same_slot a b =
    (if a.assigned then b.assigned else not b.assigned)
    && same_bytes a.name b.name
    && value_of a.status == value_of b.status
    && same_bytes a.detail b.detail

abbrev pub same_slots : List AiTaskSlot → List AiTaskSlot → Bool
same_slots [] [] = true
same_slots [] (b ∷ bs) = false
same_slots (a ∷ as') [] = false
same_slots (a ∷ as') (b ∷ bs) = same_slot a b && same_slots as' bs

module _ {Node : Type 0} (cjson : Cjson Node) where
  unfoldable pub read_provider : Agent → List ℕ → Bool → Bool → Node → Option AiProviderState
  read_provider agent status usage secondary_usage node = do
    primary ← json_read_u32 cjson node (text "primary") 100
    secondary ← json_read_u32 cjson node (text "secondary") 100
    primary_window ← json_read_u32 cjson node (text "primaryWindow") uint16_max
    secondary_window ← json_read_u32 cjson node (text "secondaryWindow") uint16_max
    primary_reset ← json_read_u32 cjson node (text "primaryReset") uint32_max
    secondary_reset ← json_read_u32 cjson node (text "secondaryReset") uint32_max
    tasks ← json_read_u32 cjson node (text "tasks") 32
    slots ← json_read_u32 cjson node (text "slots") ai_task_slot_count
    elapsed ← json_read_u32 cjson node (text "elapsed") uint32_max
    parsed ← parse_ai_status status
    some (record {
      provider = bounded 16 (display_name agent);
      usage_available = usage;
      secondary_usage_available = secondary_usage;
      primary_usage_percent = u8 primary;
      secondary_usage_percent = u8 secondary;
      primary_window_minutes = u16 primary_window;
      secondary_window_minutes = u16 secondary_window;
      primary_reset_seconds = primary_reset;
      secondary_reset_seconds = secondary_reset;
      active_task_count = u8 tasks;
      available_task_slots = u8 slots;
      task_status = parsed;
      elapsed_seconds = elapsed;
    })

  unfoldable pub take_provider : Progress → Node → Option Progress
  take_provider progress node = do
    identifier ← string_item cjson node (text "id")
    usage ← boolean_item cjson node (text "usageAvailable")
    secondary_usage ← boolean_item cjson node (text "secondaryAvailable")
    status ← string_item cjson node (text "status")
    agent ← agent_of identifier
    require (not (is_seen agent progress))
    state ← read_provider agent status usage secondary_usage node
    some (put_provider agent state progress)

  unfoldable pub take_providers : Progress → List Node → Option Progress
  take_providers progress [] = some progress
  take_providers progress (node ∷ nodes) = do
    next ← take_provider progress node
    take_providers next nodes

  -- The new state with what the messages of tasks keep.
  abbrev pub keep_tasks : AiState → AiState → AiState
  keep_tasks old new = record new {
    codex_tasks = old.codex_tasks;
    claude_tasks = old.claude_tasks;
    codex = record new.codex { available_task_slots = old.codex.available_task_slots };
    claude = record new.claude { available_task_slots = old.claude.available_task_slots };
  }

  abbrev pub no_progress : Progress
  no_progress = record {
    built = record no_ai { ai_valid = true };
    codex_seen = false;
    claude_seen = false;
  }

  unfoldable pub read_ai : List ℕ → Option Progress
  read_ai payload = do
    root ← parse_json_object cjson payload
    providers ← as_array cjson (get_item cjson (some root) (text "providers"))
    require (length providers == ai_provider_count)
    progress ← take_providers no_progress providers
    require (progress.codex_seen && progress.claude_seen)
    some progress

  unfoldable pub apply_ai_state_payload : List ℕ → AppState → Option AppState
  apply_ai_state_payload payload state = do
    progress ← read_ai payload
    some (revised (record state { ai = keep_tasks state.ai progress.built }))

  -- A task with its name and status.
  unfoldable pub read_task : Node → Option AiTaskSlot
  read_task node = do
    label ← string_item cjson node (text "n")
    require (not (length label == 0) && ltb (length label) 40)
    status_text ← string_item cjson node (text "s")
    parsed ← parse_ai_status status_text
    some (record { assigned = true; name = bounded 40 label; status = parsed; detail = [] })

  abbrev pub detail_of : Option (List ℕ) → List ℕ
  detail_of none = []
  detail_of (some bytes) = if ltb (length bytes) 24 then bounded 24 bytes else []

  -- A task of Claude, which may have a detail.
  unfoldable pub read_claude_task : Node → Option AiTaskSlot
  read_claude_task node = do
    slot ← read_task node
    some (record slot { detail = detail_of (string_item cjson node (text "d")) })

  abbrev pub each : (Node → Option AiTaskSlot) → List Node → Option (List AiTaskSlot)
  each read [] = some []
  each read (node ∷ nodes) = do slot ← read node; slots ← each read nodes; some (slot ∷ slots)

  -- The array `parsed` and task_count.
  unfoldable pub read_tasks : (Node → Option AiTaskSlot) → List ℕ → Option (List AiTaskSlot × ℕ)
  read_tasks read payload = do
    root ← parse_json_object cjson payload
    tasks ← as_array cjson (get_item cjson (some root) (text "t"))
    require (leb (length tasks) ai_task_slot_count)
    slots ← each read tasks
    some (slots ++ replicate (ai_task_slot_count - length tasks) no_slot, length tasks)

  unfoldable pub apply_ai_tasks_payload : List ℕ → AppState → Option AppState
  apply_ai_tasks_payload payload state = do
    parsed ← read_tasks read_task payload
    some (
        revised (record state {
          ai = record state.ai {
            codex_tasks = parsed.0;
            codex = record state.ai.codex { available_task_slots = u8 parsed.1 };
          };
        }))

  abbrev pub with_claude_tasks : List AiTaskSlot → ℕ → AppState → AppState
  with_claude_tasks slots count state =
      if same_slots state.ai.claude_tasks slots && state.ai.claude.available_task_slots == u8 count
      then state
      else revised (record state {
        ai = record state.ai {
          claude_tasks = slots;
          claude = record state.ai.claude { available_task_slots = u8 count };
        };
      })

  unfoldable pub apply_claude_tasks_payload : List ℕ → AppState → Option AppState
  apply_claude_tasks_payload payload state = do
    parsed ← read_tasks read_claude_task payload
    some (with_claude_tasks parsed.0 parsed.1 state)
