-- ===== src/Privacy/Sessions.antt =====
-- What the states of the privacy machine mean for a history of events.
use esp32_monitor.Base.{
  ℕ, ◌≡◌, ◌≢◌, arith, List, [], ◌∷◌, Bool, true, false, Option, none, some, bit_and, if◌then◌else◌,
  ◌!=◌, ◌||◌,
}
use esp32_monitor.Privacy.{
  State, locked, authenticating, active, Event, boot, ble_connected, auth_succeeded, heartbeat,
  heartbeat_timeout, unlisted, Context, switch, poll_context, action_backlight_on,
  action_backlight_off, action_touch_enable, action_touch_disable, action_clear_private_data,
  action_show_home,
}

-- `(actions & flag) != 0`.
abbrev pub has : ℕ → ℕ → Bool
has actions flag = bit_and actions flag != 0

-- Whatever the event, the actions that dispatch returns fit the state that it enters. The
-- backlight and the touch panel are enabled, and the home page shown, only on a step into ACTIVE
-- from AUTHENTICATING; a step that is in ACTIVE before and in another state after switches both
-- off; a step from another state into LOCKED clears the private data; and no step both enables and disables the panel or the backlight.
pub record Fits (before after : State) (actions : ℕ) : Type 0 where
  pub on_needs_auth :
      has actions action_backlight_on ≡ true → (before ≡ authenticating) × (after ≡ active)
  pub touch_with_light : has actions action_touch_enable ≡ has actions action_backlight_on
  pub home_with_light : has actions action_show_home ≡ has actions action_backlight_on
  pub off_on_exit :
      before ≡ active
      → after ≢ active
      → (has actions action_backlight_off ≡ true) × (has actions action_touch_disable ≡ true)
  pub cleared_on_lock :
      before ≢ locked → after ≡ locked → has actions action_clear_private_data ≡ true
  pub on_when_entered : before ≢ active → after ≡ active → has actions action_backlight_on ≡ true
  pub not_both :
      (has actions action_backlight_off ≡ true → has actions action_backlight_on ≡ false)
      × (has actions action_touch_disable ≡ true → has actions action_touch_enable ≡ false)

pub switch-Fits :
    (event : Event) (context : Context) (now : ℕ)
    → Fits context.state (switch event context now).0.state (switch event context now).1
unfolding switch
switch-Fits boot context now = ground arith
switch-Fits _ context now = ground arith

-- poll never switches anything on either.
pub poll-Fits :
    (context : Context) (now : ℕ)
    → Fits context.state (poll_context context now).0.state (poll_context context now).1
unfolding poll_context
poll-Fits context now = ground (arith, switch-Fits heartbeat_timeout context now)

-- The machine run over dated events, oldest first.
unfoldable pub run : Context → List (Event × ℕ) → Context
run context [] = context
run context ((event, now) ∷ rest) = run (switch event context now).0 rest

-- An independent description of the state that a history leads to: the last event that begins or
-- ends a session counts, and for a session that was begun, whether authentication succeeded since.
abbrev is_reset : Event → Bool
is_reset auth_succeeded = false
is_reset heartbeat = false
is_reset unlisted = false
is_reset _ = true

-- The last of those events, with the history after it.
pub last_reset : List (Event × ℕ) → Option (Event × List (Event × ℕ))
last_reset [] = none
last_reset ((event, now) ∷ rest) = elim (last_reset rest) [
  | some later ↦ some later
  | none ↦ if is_reset event then some (event, rest) else none
]

abbrev is_success : Event → Bool
is_success auth_succeeded = true
is_success _ = false

pub authenticated : List (Event × ℕ) → Bool
authenticated [] = false
authenticated ((event, now) ∷ rest) = is_success event || authenticated rest

after_reset : Event → Bool → State
after_reset ble_connected true = active
after_reset ble_connected false = authenticating
after_reset _ _ = locked

-- Where no event resets, only a success out of AUTHENTICATING counts.
unreset : State → Bool → State
unreset authenticating true = active
unreset state _ = state

pub state_of_history : State → List (Event × ℕ) → State
unfolding after_reset unreset
state_of_history start history = elim (last_reset history) [
  | none ↦ unreset start (authenticated history)
  | some (event, since) ↦ after_reset event (authenticated since)
]

switch_state :
    (event : Event) (context : Context) (now : ℕ)
    → (switch event context now).0.state ≡ (
        if is_reset event
        then after_reset event false
        else unreset context.state (is_success event))
unfolding switch after_reset unreset
switch_state boot context now = ground arith
switch_state _ context now = ground arith

-- From any context, the state after any dated events is the one that the description gives.
pub run-state_of_history :
    (history : List (Event × ℕ)) (context : Context)
    → (run context history).state ≡ state_of_history context.state history
unfolding run state_of_history last_reset authenticated
run-state_of_history [] context = ground arith
run-state_of_history ((boot, now) ∷ rest) context =
    ground
      (arith, run-state_of_history rest (switch boot context now).0, switch_state boot context now)
run-state_of_history ((event, now) ∷ rest) context =
    ground (
      arith,
      run-state_of_history rest (switch event context now).0,
      switch_state event context now,
    )
