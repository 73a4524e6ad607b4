-- ===== src/Privacy/Examples.antt =====
-- Runs of the privacy machine, and its theorems at concrete contexts.
use esp32_monitor.Base.{◌≡◌, refl, arith, [], ◌∷◌, ◌++◌, map, leb, if◌then◌else◌, u32, bit_or}
use esp32_monitor.Privacy.{
  locked, active, ble_connected, auth_succeeded, heartbeat, mac_locked, Context, switch,
  poll_context, action_none, lock_actions, action_disconnect_ble,
}
use esp32_monitor.Privacy.Sessions.{
  Fits, switch-Fits, poll-Fits, run, state_of_history, run-state_of_history,
}
use esp32_monitor.Privacy.Timeout.{idle, locked_after, poll_elapsed, idle_locks}

abbrev fresh : Context
fresh = record { state = locked; heartbeat_timeout_ms = 6000; last_heartbeat_ms = 0 }

-- The last heartbeat came one second before the clock wraps.
abbrev unlocked : Context
unlocked = record { state = active; heartbeat_timeout_ms = 6000; last_heartbeat_ms = 4294966296 }

-- One second after the wrap the session is two seconds old, and eight seconds later it is over.
poll_over_wrap : (poll_context unlocked 1000).0 ≡ unlocked
unfolding poll_context
poll_over_wrap = refl

poll_over_wrap_late : (poll_context unlocked 9000).0.state ≡ locked
unfolding poll_context
poll_over_wrap_late = refl

session_state :
    (run fresh ((ble_connected, 5) ∷ (auth_succeeded, 7) ∷ (heartbeat, 9) ∷ [])).state ≡ active
unfolding run switch
session_state = refl

switch-Fits_example :
    Fits active (switch mac_locked unlocked 4).0.state (switch mac_locked unlocked 4).1
switch-Fits_example = switch-Fits mac_locked unlocked 4

poll-Fits_example : Fits active (poll_context unlocked 9000).0.state (poll_context unlocked 9000).1
poll-Fits_example = poll-Fits unlocked 9000

run-state_of_history_example :
    (run fresh ((ble_connected, 5) ∷ (auth_succeeded, 7) ∷ [])).state
    ≡ state_of_history locked ((ble_connected, 5) ∷ (auth_succeeded, 7) ∷ [])
run-state_of_history_example =
    run-state_of_history ((ble_connected, 5) ∷ (auth_succeeded, 7) ∷ []) fresh

poll_elapsed_example : poll_context unlocked (u32 4294968296) ≡ (
    if leb 2000 6000
    then (unlocked, action_none)
    else (locked_after unlocked, bit_or lock_actions action_disconnect_ble))
poll_elapsed_example =
    poll_elapsed unlocked 4294966296 4294968296 refl (omega arith) refl (omega arith) (omega arith)

idle_locks_example :
    (idle unlocked (map u32 ((4294968296 ∷ []) ++ 4294976296 ∷ 4294976546 ∷ []))).state ≡ locked
idle_locks_example =
    idle_locks unlocked 4294966296 4294976296 (4294968296 ∷ []) (4294976546 ∷ []) refl (omega arith)
      refl (omega arith) (omega arith) (omega arith)
