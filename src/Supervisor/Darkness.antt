-- ===== src/Supervisor/Darkness.antt =====
-- When the screen and the touch input are on.
use mathlib.Core.Path.{subst}
use esp32_monitor.Base.{
  sym, ℕ, ◌≡◌, refl, arith, Bool, true, false, not, Bool-cases, inl, inr, ◌!=◌, ap, ◌∙◌, ◌&&◌,
  if◌then◌else◌, if_either,
}
use esp32_monitor.Privacy.{
  Event, Context, boot, ble_connected, auth_succeeded, auth_failed, heartbeat, heartbeat_timeout,
  ble_disconnected, mac_locked, mac_sleeping, unlisted, action_disconnect_ble,
  action_clear_private_data, action_backlight_on, action_backlight_off, action_touch_enable,
  action_touch_disable, switch, is_active,
}
use esp32_monitor.BleLink.{BleEvent}
use esp32_monitor.Supervisor.{
  Runtime, Env, has_action, turn_off, clear_data, set_touch, turn_on, terminate_link, changes_input,
  apply_privacy_actions, dispatch_privacy,
}
use esp32_monitor.Supervisor.Events.{handle_ble_event}
use esp32_monitor.Supervisor.Invariants.{Observed, IsKept, handle_ble_event-Holds}

-- The privacy state, the screen and the touch input, which an action may change.
abbrev pub Outputs : Type 0
Outputs = Context × Bool × Bool × Bool

abbrev pub outputs : Runtime → Outputs
outputs runtime = (runtime.privacy, runtime.backlight, runtime.touch, runtime.has_touch_input)

-- Outside an active session the screen and the touch input are off, and there is a touch input.
abbrev pub AreDark : Outputs → Type 0
AreDark o = (is_active o.0.state ≡ false → (o.1 ≡ false) × (o.2 ≡ false)) × (o.3 ≡ true)

abbrev pub IsDark : Runtime → Type 0
IsDark runtime = AreDark (outputs runtime)

-- The same of what is observed.
abbrev pub SeenDark : Observed → Type 0
SeenDark o = AreDark (o.0, o.1, o.2, o.3)

-- The lock of the screen is got, and the backlight is switched off where it should be. That it is
-- switched on is not asked for.
pub record Answers {Node : Type 0} (env : Env Node) : Type 0 where
  pub locks : env.ui_locks ≡ true
  pub goes_off : env.backlight_goes_off ≡ true

module _ {Node : Type 0} (env : Env Node) (answers : Answers env) where
  outputs-turn_off :
      (actions : ℕ) (runtime : Runtime)
      → outputs (turn_off env actions runtime) ≡ (
        runtime.privacy,
        if has_action actions action_backlight_off then false else runtime.backlight,
        runtime.touch,
        runtime.has_touch_input,
      )
  unfolding turn_off
  outputs-turn_off actions runtime = elim (Bool-cases (has_action actions action_backlight_off)) [
    | inl e ↦ rw (e, answers.goes_off) refl
    | inr e ↦ rw e refl
  ]

  outputs-clear_data :
      (actions : ℕ) (runtime : Runtime) → outputs (clear_data env actions runtime) ≡ outputs runtime
  unfolding clear_data
  outputs-clear_data actions runtime =
      if_either (λ (r : Runtime). outputs r ≡ outputs runtime)
        (has_action actions action_clear_private_data) refl refl

  outputs-terminate_link :
      (actions : ℕ) (runtime : Runtime)
      → outputs (terminate_link env actions runtime) ≡ outputs runtime
  unfolding terminate_link
  outputs-terminate_link actions runtime =
      if_either (λ (r : Runtime). outputs r ≡ outputs runtime)
        (has_action actions action_disconnect_ble
          && runtime.link.connection_handle != env.host.no_handle)
        refl refl

  -- Whether the actions switch the screen on.
  abbrev lights : ℕ → Bool
  lights actions = has_action actions action_backlight_on && env.backlight_goes_on

  outputs-turn_on :
      (actions : ℕ) (runtime : Runtime)
      → outputs (turn_on env actions runtime) ≡ (
        runtime.privacy,
        if lights actions then true else runtime.backlight,
        runtime.touch,
        runtime.has_touch_input,
      )
  unfolding turn_on
  outputs-turn_on actions runtime = elim (Bool-cases (lights actions)) [
    | inl e ↦ rw e refl
    | inr e ↦ rw e refl
  ]

  -- The touch input after the actions, where the lock is got and there is an input.
  touch_after : ℕ → Bool → Bool
  touch_after actions touch =
      if not (changes_input env actions)
      then touch
      else if has_action actions action_touch_enable
      then true
      else if has_action actions action_touch_disable
      then false
      else touch

  outputs-set_touch :
      (actions : ℕ) (runtime : Runtime)
      → runtime.has_touch_input ≡ true
      → outputs (set_touch env actions runtime) ≡ (
        runtime.privacy,
        runtime.backlight,
        touch_after actions runtime.touch,
        runtime.has_touch_input,
      )
  unfolding set_touch touch_after
  outputs-set_touch actions runtime t =
      let guard : not (changes_input env actions && (env.ui_locks && runtime.has_touch_input))
          ≡ not (changes_input env actions) =
        ground (arith, answers.locks, t) in
      rw guard (elim (Bool-cases (not (changes_input env actions))) [
        | inl e ↦ rw e refl
        | inr e ↦ rw e (elim (Bool-cases (has_action actions action_touch_enable)) [
          | inl e' ↦ rw e' refl
          | inr e' ↦ rw e' (elim (Bool-cases (has_action actions action_touch_disable)) [
            | inl e'' ↦ rw e'' refl
            | inr e'' ↦ rw e'' refl
          ])
        ])
      ])

  lit_after : ℕ → Bool → Bool
  lit_after actions lit =
      if lights actions
      then true
      else if has_action actions action_backlight_off
      then false
      else lit

  outputs-apply_privacy_actions :
      (actions : ℕ) (runtime : Runtime)
      → runtime.has_touch_input ≡ true
      → outputs (apply_privacy_actions env actions runtime) ≡ (
        runtime.privacy,
        lit_after actions runtime.backlight,
        touch_after actions runtime.touch,
        runtime.has_touch_input,
      )
  unfolding apply_privacy_actions lit_after
  outputs-apply_privacy_actions actions r t =
      let r1 = turn_off env actions r in
      let r2 = clear_data env actions r1 in
      let r3 = set_touch env actions r2 in
      let r4 = turn_on env actions r3 in
      let o2 = outputs-clear_data actions r1 ∙ outputs-turn_off actions r in
      let t2 : r2.has_touch_input ≡ true = ap (λ (o : Outputs). o.3) o2 ∙ t in
      let o3 =
        outputs-set_touch actions r2 t2
        ∙ ap (λ (o : Outputs). (o.0, o.1, touch_after actions o.2, o.3)) o2 in
      outputs-terminate_link actions r4
      ∙ outputs-turn_on actions r3
      ∙ ap (λ (o : Outputs). (o.0, if lights actions then true else o.1, o.2, o.3)) o3

  switch_dark :
      (event : Event) (context : Context) (now : ℕ) (lit touch : Bool)
      → AreDark (context, lit, touch, true)
      → let (context', actions) = switch event context now in
        AreDark (context', lit_after actions lit, touch_after actions touch, true)
  unfolding switch lit_after touch_after
  switch_dark boot context now lit touch h = ground (arith, h)
  switch_dark ble_connected context now lit touch h = ground (arith, h)
  switch_dark auth_succeeded context now lit touch h = ground (arith, h)
  switch_dark auth_failed context now lit touch h = ground (arith, h)
  switch_dark heartbeat context now lit touch h = ground (arith, h)
  switch_dark heartbeat_timeout context now lit touch h = ground (arith, h)
  switch_dark ble_disconnected context now lit touch h = ground (arith, h)
  switch_dark mac_locked context now lit touch h = ground (arith, h)
  switch_dark mac_sleeping context now lit touch h = ground (arith, h)
  switch_dark unlisted context now lit touch h = ground (arith, h)

  dispatch_privacy-IsDark :
      (event : Event) (runtime : Runtime)
      → IsDark runtime
      → IsDark (dispatch_privacy env event runtime)
  unfolding dispatch_privacy
  dispatch_privacy-IsDark event r h =
      let (context, actions) = switch event r.privacy env.now_ms in
      let dark = switch_dark event r.privacy env.now_ms r.backlight r.touch (h.0, refl) in
      subst AreDark
        (sym (outputs-apply_privacy_actions actions (record r { privacy = context }) h.1))
        (dark.0, h.1)

  pub dark-IsKept : IsKept env SeenDark
  dark-IsKept = record { dispatched = dispatch_privacy-IsDark; written = λ runtime state e h. h }

  -- With a touch input, a lock of the screen that is got and a backlight that goes off when it is
  -- told to, every event of the link keeps the screen and the touch input off outside an active
  -- session.
  pub handle_ble_event-IsDark :
      (event : BleEvent) (runtime : Runtime)
      → IsDark runtime
      → IsDark (handle_ble_event env event runtime)
  handle_ble_event-IsDark event runtime h =
      handle_ble_event-Holds env SeenDark dark-IsKept event runtime h
