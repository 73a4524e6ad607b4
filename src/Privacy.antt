-- ===== src/Privacy.antt =====
-- The privacy state machine, firmware/components/privacy/privacy_state_machine.c. A pointer to a
-- context is `Option Context`, where `none` is NULL.
pub mod Sessions
pub mod Timeout
mod Examples
use esp32_monitor.Base.{
  ℕ, bit_or, Bool, true, false, not, Option, none, some, ◌||◌, ◌==◌, leb, if◌then◌else◌, sub_u32,
}

pub data State : Type 0 where
  locked authenticating active : State

-- `unlisted` is a value outside the enumeration, the `default` of the switch.
pub data Event : Type 0 where
  boot ble_connected auth_succeeded auth_failed heartbeat : Event
  heartbeat_timeout ble_disconnected mac_locked mac_sleeping unlisted : Event

pub record Context : Type 0 where
  pub state : State
  pub heartbeat_timeout_ms : ℕ
  pub last_heartbeat_ms : ℕ

-- desk_privacy_actions_t: a set of the bits below.
abbrev pub action_none : ℕ
action_none = 0

abbrev pub action_backlight_on : ℕ
action_backlight_on = 0x01

abbrev pub action_backlight_off : ℕ
action_backlight_off = 0x02

abbrev pub action_touch_enable : ℕ
action_touch_enable = 0x04

abbrev pub action_touch_disable : ℕ
action_touch_disable = 0x08

abbrev pub action_clear_private_data : ℕ
action_clear_private_data = 0x10

abbrev pub action_show_home : ℕ
action_show_home = 0x20

abbrev pub action_disconnect_ble : ℕ
action_disconnect_ble = 0x40

abbrev pub lock_actions : ℕ
lock_actions = bit_or (bit_or action_backlight_off action_touch_disable) action_clear_private_data

abbrev pub is_authenticating : State → Bool
is_authenticating authenticating = true
is_authenticating _ = false

abbrev pub is_active : State → Bool
is_active active = true
is_active _ = false

enter_locked : Context → Context
enter_locked context = record context { state = locked; last_heartbeat_ms = 0 }

unfoldable pub init : Option Context → ℕ → Option Context
init none timeout = none
init (some context) timeout =
    some (record { state = locked; heartbeat_timeout_ms = timeout; last_heartbeat_ms = 0 })

-- The switch of desk_privacy_dispatch, on a context that is there.
unfoldable pub switch : Event → Context → ℕ → Context × ℕ
unfolding enter_locked
switch boot context now = (enter_locked context, lock_actions)
switch ble_connected context now = (
  record context { state = authenticating; last_heartbeat_ms = 0 },
  bit_or action_backlight_off action_touch_disable,
)
switch auth_succeeded context now =
    if is_authenticating context.state
    then (
      record context { state = active; last_heartbeat_ms = now },
      bit_or (bit_or action_backlight_on action_touch_enable) action_show_home,
    )
    else (context, action_none)
switch auth_failed context now = (enter_locked context, bit_or lock_actions action_disconnect_ble)
switch heartbeat context now = (
  if is_active context.state then record context { last_heartbeat_ms = now } else context,
  action_none,
)
switch heartbeat_timeout context now =
    (enter_locked context, bit_or lock_actions action_disconnect_ble)
switch mac_sleeping context now = (enter_locked context, bit_or lock_actions action_disconnect_ble)
switch ble_disconnected context now = (enter_locked context, lock_actions)
switch mac_locked context now = (enter_locked context, lock_actions)
switch unlisted context now = (context, action_none)

unfoldable pub dispatch : Option Context → Event → ℕ → Option Context × ℕ
dispatch none event now = (none, action_none)
dispatch (some context) event now =
    let (context', actions) = switch event context now in (some context', actions)

-- desk_privacy_poll, on a context that is there.
unfoldable pub poll_context : Context → ℕ → Context × ℕ
unfolding switch
poll_context context now =
    if not (is_active context.state) || context.heartbeat_timeout_ms == 0
    then (context, action_none)
    else if leb (sub_u32 now context.last_heartbeat_ms) context.heartbeat_timeout_ms
    then (context, action_none)
    else switch heartbeat_timeout context now

unfoldable pub poll : Option Context → ℕ → Option Context × ℕ
poll none now = (none, action_none)
poll (some context) now =
    let (context', actions) = poll_context context now in (some context', actions)
