-- ===== src/Supervisor/Secrecy.antt =====
-- When private data is kept.
use mathlib.Core.Path.{subst}
use esp32_monitor.Base.{
  sym, ℕ, ◌≡◌, ◌⊎◌, refl, arith, true, not, Bool-cases, inl, inr, ◌!=◌, ap, ◌∙◌, ◌&&◌,
  if◌then◌else◌, if_either,
}
use esp32_monitor.Privacy.{
  Event, Context, boot, action_disconnect_ble, action_clear_private_data, action_backlight_on,
  action_backlight_off, action_touch_enable, action_touch_disable, switch, is_active, locked,
  Context,
}
use esp32_monitor.AppModel.{AppState, no_system, no_control, no_ai, no_media, clear_private}
use esp32_monitor.BleLink.{BleEvent}
use esp32_monitor.Supervisor.{
  Runtime, Env, has_action, turn_off, clear_data, set_touch, turn_on, terminate_link, changes_input,
  apply_privacy_actions, dispatch_privacy,
}
use esp32_monitor.Supervisor.Events.{handle_ble_event}
use esp32_monitor.Supervisor.Invariants.{
  Private, private_of, Observed, observed, IsKept, handle_ble_event-Holds,
}

abbrev pub no_private : Private
no_private = (no_system, no_control, no_ai, no_media)

-- In LOCKED there is no private data.
abbrev pub SeenSecret : Observed → Type 0
SeenSecret o = o.0.state ≡ locked → o.4 ≡ no_private

abbrev pub IsSecret : Runtime → Type 0
IsSecret runtime = SeenSecret (observed runtime)

module _ {Node : Type 0} (env : Env Node) where
  abbrev Secrets : Type 0
  Secrets = Context × Private

  abbrev secrets : Runtime → Secrets
  secrets runtime = (runtime.privacy, private_of runtime.app_state)

  secrets-turn_off :
      (actions : ℕ) (runtime : Runtime) → secrets (turn_off env actions runtime) ≡ secrets runtime
  unfolding turn_off
  secrets-turn_off actions runtime =
      let Q : Runtime → Type 0 = λ r. secrets r ≡ secrets runtime in
      if_either Q (has_action actions action_backlight_off && env.backlight_goes_off) refl refl

  secrets-set_touch :
      (actions : ℕ) (runtime : Runtime) → secrets (set_touch env actions runtime) ≡ secrets runtime
  unfolding set_touch
  secrets-set_touch actions runtime =
      let Q : Runtime → Type 0 = λ r. secrets r ≡ secrets runtime in
      if_either Q (not (changes_input env actions && (env.ui_locks && runtime.has_touch_input)))
        refl
        (if_either Q (has_action actions action_touch_enable) refl
          (if_either Q (has_action actions action_touch_disable) refl refl))

  secrets-turn_on :
      (actions : ℕ) (runtime : Runtime) → secrets (turn_on env actions runtime) ≡ secrets runtime
  unfolding turn_on
  secrets-turn_on actions runtime =
      let Q : Runtime → Type 0 = λ r. secrets r ≡ secrets runtime in
      if_either Q (has_action actions action_backlight_on && env.backlight_goes_on) refl refl

  secrets-terminate_link :
      (actions : ℕ) (runtime : Runtime)
      → secrets (terminate_link env actions runtime) ≡ secrets runtime
  unfolding terminate_link
  secrets-terminate_link actions runtime =
      let Q : Runtime → Type 0 = λ r. secrets r ≡ secrets runtime in
      if_either Q
        (has_action actions action_disconnect_ble
          && runtime.link.connection_handle != env.host.no_handle)
        refl refl

  -- The private data after the actions.
  kept_by : ℕ → Private → Private
  kept_by actions private =
      if has_action actions action_clear_private_data then no_private else private

  secrets-clear_data :
      (actions : ℕ) (runtime : Runtime)
      → secrets (clear_data env actions runtime)
        ≡ (runtime.privacy, kept_by actions (private_of runtime.app_state))
  unfolding clear_data clear_private kept_by
  secrets-clear_data actions runtime =
      elim (Bool-cases (has_action actions action_clear_private_data)) [
        | inl e ↦ rw e refl
        | inr e ↦ rw e refl
      ]

  secrets-apply_privacy_actions :
      (actions : ℕ) (runtime : Runtime)
      → secrets (apply_privacy_actions env actions runtime)
        ≡ (runtime.privacy, kept_by actions (private_of runtime.app_state))
  unfolding apply_privacy_actions
  secrets-apply_privacy_actions actions r =
      let r1 = turn_off env actions r in
      let r2 = clear_data env actions r1 in
      let r3 = set_touch env actions r2 in
      secrets-terminate_link actions (turn_on env actions r3)
      ∙ secrets-turn_on actions r3
      ∙ secrets-set_touch actions r2
      ∙ secrets-clear_data actions r1
      ∙ ap (λ (s : Secrets). (s.0, kept_by actions s.1)) (secrets-turn_off actions r)

  switch_clears :
      (event : Event) (context : Context) (now : ℕ)
      → (switch event context now).0.state ≡ locked
      → (context.state ≡ locked)
        ⊎ (has_action (switch event context now).1 action_clear_private_data ≡ true)
  unfolding switch
  switch_clears boot context now e = ground (arith, e)
  switch_clears _ context now e = ground (arith, e)

  switch-IsSecret :
      (event : Event) (context : Context) (now : ℕ) (private : Private)
      → (context.state ≡ locked → private ≡ no_private)
      → (switch event context now).0.state ≡ locked
      → kept_by (switch event context now).1 private ≡ no_private
  unfolding kept_by
  switch-IsSecret event context now private h e = elim (switch_clears event context now e) [
    | inl l ↦
        if_either (λ (p : Private). p ≡ no_private)
          (has_action (switch event context now).1 action_clear_private_data) refl (h l)
    | inr c ↦ rw c refl
  ]

  dispatch_privacy-IsSecret :
      (event : Event) (runtime : Runtime)
      → IsSecret runtime
      → IsSecret (dispatch_privacy env event runtime)
  unfolding dispatch_privacy
  dispatch_privacy-IsSecret event r h =
      let (context, actions) = switch event r.privacy env.now_ms in
      subst (λ (s : Secrets). s.0.state ≡ locked → s.1 ≡ no_private)
        (sym (secrets-apply_privacy_actions actions (record r { privacy = context })))
        (switch-IsSecret event r.privacy env.now_ms (private_of r.app_state) h)

  written-IsSecret :
      (runtime : Runtime) (state : AppState)
      → is_active runtime.privacy.state ≡ true
      → IsSecret (record runtime { app_state = state })
  written-IsSecret runtime state e l = absurd (ground (arith, e, l))

  pub secret-IsKept : IsKept env SeenSecret
  secret-IsKept = record {
    dispatched = dispatch_privacy-IsSecret;
    written = λ runtime state e h. written-IsSecret runtime state e;
  }

  -- Every event of the link, whatever is called and answers, keeps it so that in LOCKED the system
  -- state, the control layout, the state of the agents and the media state are those of the start.
  pub handle_ble_event-IsSecret :
      (event : BleEvent) (runtime : Runtime)
      → IsSecret runtime
      → IsSecret (handle_ble_event env event runtime)
  handle_ble_event-IsSecret event runtime h =
      handle_ble_event-Holds env SeenSecret secret-IsKept event runtime h
