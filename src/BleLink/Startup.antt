-- ===== src/BleLink/Startup.antt =====
-- The interface of the link to the supervisor and to a reading peer: start, receive, the status.
use esp32_monitor.Base.{
  ℕ, ◌+◌, Bool, true, false, not, Option, none, some, List, [], ◌∷◌, ◌++◌, ◌&&◌, ◌==◌, ◌!=◌,
  if◌then◌else◌,
}
use esp32_monitor.Esp.{is_esp_ok, EspErr, esp_ok, fail, invalid_state, no_mem}
use esp32_monitor.Protocol.{version, write_u16_le}
use esp32_monitor.BleLink.{Host, LinkState, BleEvent}

-- What the calls of desk_ble_link_start answer; a host result is 0 for success.
pub record Platform : Type 0 where
  pub queue_created : Bool
  pub mutex_created : Bool
  pub nvs_flash_init : EspErr
  pub nimble_port_init : EspErr
  pub count_cfg : ℕ
  pub add_svcs : ℕ
  pub hid_add : ℕ
  pub device_name_set : ℕ

-- host_result after the four calls, each made where the earlier ones returned 0.
unfoldable pub host_result : Platform → ℕ
host_result platform =
    if platform.count_cfg != 0
    then platform.count_cfg
    else if platform.add_svcs != 0
    then platform.add_svcs
    else if platform.hid_add != 0
    then platform.hid_add
    else platform.device_name_set

unfoldable pub start : Platform → LinkState → LinkState × EspErr
unfolding is_esp_ok host_result
start platform link =
    let queued = record link { event_queue = some [] } in
    let locked = record queued { codex_send_mutex = true } in
    if link.started
    then (link, invalid_state)
    else if not platform.queue_created
    then (record link { event_queue = none }, no_mem)
    else if not platform.mutex_created
    then (record queued { codex_send_mutex = false }, no_mem)
    else if not (is_esp_ok platform.nvs_flash_init)
    then (locked, platform.nvs_flash_init)
    else if not (is_esp_ok platform.nimble_port_init)
    then (locked, platform.nimble_port_init)
    else if host_result platform != 0
    then (locked, fail)
    else (record locked { started = true }, esp_ok)

-- The queue with `receive`, which is xQueueReceive: the first event and the others, or `none`
-- where none came in time. The pointer to the event is not NULL.
unfoldable pub receive_event :
    (List BleEvent → Option (BleEvent × List BleEvent)) → LinkState → LinkState × Option BleEvent
receive_event receive link = elim link.event_queue [
  | none ↦ (link, none)
  | some queue ↦ elim (receive queue) [
    | none ↦ (link, none)
    | some taken ↦ (record link { event_queue = some taken.1 }, some taken.0)
  ]
]

unfoldable pub flag : Bool → ℕ → ℕ
flag true value = value
flag false value = 0

-- The eight bytes that a read of the status characteristic returns. The flags have bits of their
-- own, so their sum is their union.
unfoldable pub status_value : LinkState → List ℕ
unfolding flag
status_value link =
    version
      ∷ (flag link.connected 1
          + flag link.encrypted 2
          + flag link.bonded 4
          + flag link.subscribed 8)
      ∷ write_u16_le link.mtu
    ++ write_u16_le link.rx_error_count
    ++ 0 ∷ 0 ∷ []

unfoldable pub codex_ready : LinkState → Bool
codex_ready link = link.connected && link.encrypted && link.codex_subscribed

-- `terminate` is ble_gap_terminate, 0 for success.
unfoldable pub disconnect_link : Host → (ℕ → ℕ) → LinkState → EspErr
disconnect_link host terminate link =
    if link.connection_handle == host.no_handle
    then invalid_state
    else if terminate link.connection_handle == 0
    then esp_ok
    else fail
