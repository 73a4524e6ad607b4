-- ===== src/BleLink.antt =====
-- The Bluetooth transport, firmware/components/ble_link/ble_link.c: its state, its event queue and
-- the constants its parts share. A function that runs in the host task or under the lock is one
-- step on the state. What NimBLE and FreeRTOS do is the record Host.
pub mod Reassembly
pub mod Send
pub mod Gap
pub mod Startup
pub mod Codex
pub mod Bounds
pub mod Session
pub mod Delivery
mod Examples
use esp32_monitor.Base.{ℕ, ◌+◌, ◌-◌, Bool, false, Option, none, some, List, u16, replicate}
use esp32_monitor.Protocol.{max_frame_size}

abbrev pub reassembly_timeout_ms : ℕ
reassembly_timeout_ms = 2000

abbrev pub default_att_mtu : ℕ
default_att_mtu = 23

abbrev pub max_att_mtu : ℕ
max_att_mtu = 247

abbrev pub att_header_size : ℕ
att_header_size = 3

abbrev pub fragment_header_size : ℕ
fragment_header_size = 4

-- uint8_t flat[MAX_ATT_MTU - ATT_HEADER_SIZE], and the same for the packets sent.
abbrev pub packet_size : ℕ
packet_size = max_att_mtu - att_header_size

pub data EventType : Type 0 where
  ready connected disconnected security_changed subscription_changed mtu_changed : EventType
  frame_received codex_task_status transport_error : EventType

pub data SlotStatus : Type 0 where
  unassigned idle running completed waiting failed : SlotStatus

-- desk_ble_event_t. NimBLE's status codes are not negative.
pub record BleEvent : Type 0 where
  pub type : EventType
  pub connection_handle : ℕ
  pub mtu : ℕ
  pub status : ℕ
  pub encrypted : Bool
  pub bonded : Bool
  pub subscribed : Bool
  pub codex_subscribed : Bool
  pub codex_slot : ℕ
  pub codex_status : SlotStatus
  pub frame_length : ℕ
  pub frame : List ℕ

-- reassembly_state_t; `bytes` is the field data, always max_frame_size bytes long.
pub record Assembly : Type 0 where
  pub active : Bool
  pub frame_id : ℕ
  pub fragment_count : ℕ
  pub next_fragment : ℕ
  pub started_ms : ℕ
  pub length : ℕ
  pub bytes : List ℕ

-- ble_link_state_t, less the lock. The mutex is there or is not.
pub record LinkState : Type 0 where
  pub started : Bool
  pub connected : Bool
  pub encrypted : Bool
  pub bonded : Bool
  pub subscribed : Bool
  pub codex_subscribed : Bool
  pub own_address_type : ℕ
  pub connection_handle : ℕ
  pub mtu : ℕ
  pub next_tx_frame_id : ℕ
  pub rx_error_count : ℕ
  pub event_queue : Option (List BleEvent)
  pub codex_send_mutex : Bool
  pub assembly : Assembly

-- What the code calls and does not implement.
pub record Host : Type 0 where
  -- xQueueSend with no waiting: the queue after it, or `none` where it is full.
  pub queue_send : List BleEvent → BleEvent → Option (List BleEvent)
  -- ble_hs_mbuf_to_flat: the bytes copied out of a packet, or `none` for an error.
  pub to_flat : List ℕ → Option (List ℕ)
  -- BLE_HS_CONN_HANDLE_NONE.
  pub no_handle : ℕ

-- What reset_reassembly leaves: memset to 0.
abbrev pub no_assembly : Assembly
no_assembly = record {
  active = false;
  frame_id = 0;
  fragment_count = 0;
  next_fragment = 0;
  started_ms = 0;
  length = 0;
  bytes = replicate max_frame_size 0;
}

-- The static value of link_state, with the handle that stands for none.
abbrev pub initial_link : ℕ → LinkState
initial_link no_handle = record {
  started = false;
  connected = false;
  encrypted = false;
  bonded = false;
  subscribed = false;
  codex_subscribed = false;
  own_address_type = 0;
  connection_handle = no_handle;
  mtu = default_att_mtu;
  next_tx_frame_id = 0;
  rx_error_count = 0;
  event_queue = none;
  codex_send_mutex = false;
  assembly = no_assembly;
}

unfoldable pub reset_reassembly : LinkState → LinkState
reset_reassembly link = record link { assembly = no_assembly }

-- The copy of the link's flags that every event carries.
abbrev pub event_of : LinkState → EventType → BleEvent
event_of link type = record {
  type = type;
  connection_handle = link.connection_handle;
  mtu = link.mtu;
  status = 0;
  encrypted = link.encrypted;
  bonded = link.bonded;
  subscribed = link.subscribed;
  codex_subscribed = link.codex_subscribed;
  codex_slot = 0;
  codex_status = unassigned;
  frame_length = 0;
  frame = replicate max_frame_size 0;
}

module _ (host : Host) where
  count_error : LinkState → LinkState
  count_error link = record link { rx_error_count = u16 (link.rx_error_count + 1) }

  unfoldable pub post_event : LinkState → BleEvent → LinkState
  unfolding count_error
  post_event link event = elim link.event_queue [
    | none ↦ link
    | some queue ↦ elim (host.queue_send queue event) [
      | some queue' ↦ record link { event_queue = some queue' }
      | none ↦ count_error link
    ]
  ]

  unfoldable pub post_simple_event : LinkState → EventType → ℕ → LinkState
  unfolding post_event
  post_simple_event link type status =
      post_event link (record (event_of link type) { status = status })
