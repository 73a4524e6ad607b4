-- ===== src/Supervisor/Events.antt =====
-- handle_ble_event and the two timeouts of the supervisor's loop.
use esp32_monitor.Base.{
  suc, Bool, List, [], ◌∷◌, Option, some, none, ℕ, true, false, not, ◌&&◌, ◌||◌, ltb, ◌!=◌,
  if◌then◌else◌,
}
use esp32_monitor.Privacy.{is_active, ble_connected, ble_disconnected, auth_failed}
use esp32_monitor.Protocol.Window.{SequenceWindow}
use esp32_monitor.BleLink.{
  BleEvent, EventType, connected, disconnected, security_changed, mtu_changed, frame_received,
  codex_task_status, SlotStatus, unassigned, idle, running, completed, waiting, failed,
}
use esp32_monitor.Base.Options.{◌>>=◌}
use esp32_monitor.AppModel.{
  AppState, AiTaskSlot, AiTaskStatus, ai_idle, ai_running, ai_waiting_input, ai_completed,
  ai_failed, revised, ai_task_slot_count,
}
use esp32_monitor.AppAuth.{clear_session_material}
use esp32_monitor.Supervisor.{Runtime, Env, dispatch_privacy}
use esp32_monitor.Supervisor.Frames.{handle_protocol_frame, with_app}

abbrev no_sequences : SequenceWindow
no_sequences = record { newest_sequence = 0; seen_bitmap = 0; initialized = false }

-- The table `mapped`.
abbrev pub mapped : SlotStatus → AiTaskStatus
mapped unassigned = ai_idle
mapped idle = ai_idle
mapped running = ai_running
mapped completed = ai_completed
mapped waiting = ai_waiting_input
mapped failed = ai_failed

-- The slot of an index, with a new status where it is assigned.
abbrev pub set_slot : List AiTaskSlot → ℕ → AiTaskStatus → Option (List AiTaskSlot)
set_slot [] slot new = none
set_slot (task ∷ tasks) ℕ.zero new =
    if task.assigned then some (record task { status = new } ∷ tasks) else none
set_slot (task ∷ tasks) (suc slot) new = do rest ← set_slot tasks slot new; some (task ∷ rest)

abbrev pub set_codex_status : ℕ → AiTaskStatus → AppState → Option AppState
set_codex_status slot new state = do
  tasks ← set_slot state.ai.codex_tasks slot new
  some (revised (record state { ai = record state.ai { codex_tasks = tasks } }))

abbrev pub linked : Bool → AppState → AppState
linked is_bonded state = revised (record state {
  connection = record state.connection { ble_connected = true; mac_authenticated = false };
  device = record state.device { ble_bonded = is_bonded };
})

abbrev pub unlinked : AppState → AppState
unlinked state = record state { device = record state.device { ble_bonded = false; ble_mtu = 0 } }

abbrev pub with_bond : Bool → AppState → AppState
with_bond is_bonded state = record state { device = record state.device { ble_bonded = is_bonded } }

abbrev pub with_mtu : ℕ → AppState → AppState
with_mtu mtu state = record state { device = record state.device { ble_mtu = mtu } }

module _ {Node : Type 0} (env : Env Node) where
  unfoldable pub on_connected : BleEvent → Runtime → Runtime
  on_connected event runtime = dispatch_privacy env ble_connected (record runtime {
    rx_sequences = no_sequences;
    auth = clear_session_material runtime.auth;
    auth_started_ms = env.now_ms;
    tx_sequence = 0;
    app_state = linked event.bonded runtime.app_state;
  })

  unfoldable pub on_disconnected : Runtime → Runtime
  on_disconnected runtime = dispatch_privacy env ble_disconnected (record runtime {
    auth = clear_session_material runtime.auth;
    auth_started_ms = 0;
    app_state = unlinked runtime.app_state;
  })

  unfoldable pub on_security_changed : BleEvent → Runtime → Runtime
  on_security_changed event runtime =
      if event.status != 0 || not event.encrypted
      then dispatch_privacy env auth_failed runtime
      else record runtime { app_state = with_bond event.bonded runtime.app_state }

  abbrev pub on_codex_status : BleEvent → Runtime → Runtime
  on_codex_status event runtime =
      if is_active runtime.privacy.state && ltb event.codex_slot ai_task_slot_count
      then with_app env
          (set_codex_status event.codex_slot (mapped event.codex_status) runtime.app_state) runtime
      else runtime

  unfoldable pub handle_event : EventType → BleEvent → Runtime → Runtime
  unfolding on_connected on_disconnected on_security_changed
  handle_event connected event runtime = on_connected event runtime
  handle_event disconnected event runtime = on_disconnected runtime
  handle_event security_changed event runtime = on_security_changed event runtime
  handle_event frame_received event runtime = handle_protocol_frame env event runtime
  handle_event mtu_changed event runtime = record runtime {
    app_state = with_mtu event.mtu runtime.app_state;
  }
  handle_event codex_task_status event runtime = on_codex_status event runtime
  handle_event _ event runtime = runtime

  unfoldable pub handle_ble_event : BleEvent → Runtime → Runtime
  unfolding handle_event
  handle_ble_event event runtime = handle_event event.type event runtime
