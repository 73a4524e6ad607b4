-- ===== src/Privacy/Timeout.antt =====
-- When desk_privacy_poll ends a session, on the 32-bit clock that wraps every 49.7 days.
use esp32_monitor.Base.{
  ℕ, ◌+◌, ◌-◌, ◌^◌, ◌≤◌, ◌<◌, ◌≡◌, ◌≢◌, arith, List, [], ◌∷◌, ◌++◌, map, leb, bit_or, u32, All,
  if◌then◌else◌,
}
use esp32_monitor.Privacy.{
  Context, locked, active, switch, poll_context, action_none, lock_actions, action_disconnect_ble,
}

-- The polls of a supervisor that sees no event, at these clock readings.
pub idle : Context → List ℕ → Context
idle context [] = context
idle context (now ∷ later) = idle (poll_context context now).0 later

abbrev pub locked_after : Context → Context
locked_after context = record context { state = locked; last_heartbeat_ms = 0 }

-- With the heartbeat at time `beat` and the poll at time `now`, fewer than 2 ^ 32 ms later by a
-- clock that never wraps, poll on the wrapped readings leaves an active context alone if the
-- elapsed time is within the timeout, and else locks it, with the actions of a lock and a
-- disconnect.
pub poll_elapsed :
    (context : Context) (beat now : ℕ)
    → context.state ≡ active
    → context.heartbeat_timeout_ms ≢ 0
    → context.last_heartbeat_ms ≡ u32 beat
    → beat ≤ now
    → now < beat + 2 ^ 32
    → poll_context context (u32 now) ≡ (
        if leb (now - beat) context.heartbeat_timeout_ms
        then (context, action_none)
        else (locked_after context, bit_or lock_actions action_disconnect_ble))
unfolding poll_context switch
poll_elapsed context beat now is_active on e p q = ground arith

idle_locked :
    (context : Context) (times : List ℕ)
    → context.state ≡ locked
    → (idle context times).state ≡ locked
unfolding idle poll_context
idle_locked context [] h = h
idle_locked context (now ∷ later) h = ground (arith, idle_locked context later h)

-- Without a heartbeat an active context is locked in the end: polled at any times within 2 ^ 32 ms
-- after the last heartbeat, one of them beyond the timeout, it is locked after the last poll,
-- however many polls came before and come after that one.
pub idle_locks :
    (context : Context) (beat late : ℕ) (before after : List ℕ)
    → context.state ≡ active
    → context.heartbeat_timeout_ms ≢ 0
    → context.last_heartbeat_ms ≡ u32 beat
    → All (λ now. (beat ≤ now) × (now < beat + 2 ^ 32)) before
    → beat + context.heartbeat_timeout_ms < late
    → late < beat + 2 ^ 32
    → (idle context (map u32 (before ++ late ∷ after))).state ≡ locked
unfolding idle
idle_locks context beat late [] after is on e inside p q = ground (
  arith,
  poll_elapsed context beat late,
  idle_locked (poll_context context (u32 late)).0 (map u32 after),
)
idle_locks context beat late (now ∷ before) after is on e inside p q = ground (
  arith,
  poll_elapsed context beat now,
  idle_locked (poll_context context (u32 now)).0 (map u32 (before ++ late ∷ after)),
  idle_locks context beat late before after is on e inside.1 p q,
)
