-- ===== src/BleLink/Examples.antt =====
-- The transport at a concrete host, and its theorems there.
use mathlib.Core.Option.{some-injective}
use esp32_monitor.Base.{
  ℕ, ◌+◌, ◌%◌, ◌≡◌, ◌≢◌, refl, ap, sym, arith, Bool, true, false, Option, none, some, List, [], ◌∷◌,
  ◌++◌, All, if◌then◌else◌, if_cases, ltb, length as list_length, take,
}
use esp32_monitor.Esp.{esp_ok, is_esp_ok}
use esp32_monitor.Protocol.{ok, read_u16_le}
use esp32_monitor.Protocol.Crc.{crc16}
use esp32_monitor.Protocol.Codec.{decode_into}
use esp32_monitor.BleLink.{Host, LinkState, BleEvent, initial_link, post_event, reset_reassembly}
use esp32_monitor.BleLink.Reassembly.{
  is_ok, unset_frame, take_fragment, append_fragment, finish_assembly, handle_rx_fragment,
}
use esp32_monitor.BleLink.Send.{
  Notified, sent, send_frame, send_checked, send_fragments, fragment_capacity,
}
use esp32_monitor.BleLink.Startup.{Platform, host_result, start, receive_event}
use esp32_monitor.BleLink.Session.{Appends, IsLink}
use esp32_monitor.BleLink.Session.Reached.{
  TakesFirst, Reached, initial, started, written, codex_written, Reached-IsLink,
  receive_event-IsSound,
}
use esp32_monitor.Json.{object}
use esp32_monitor.BleLink.Codex.{Channel, report_of}
use esp32_monitor.BleLink.Codex.Requests.{Rpc}
use esp32_monitor.BleLink.Codex.Buffer.{Inbox, method_prefix, codex_report_written}
use esp32_monitor.BleLink.Bounds.{Fits, send_frame-Fits}
use esp32_monitor.BleLink.Delivery.{deliver, frame_event}
use esp32_monitor.BleLink.Delivery.Whole.{deliver-send_frame}

-- A queue of eight events, as EVENT_QUEUE_LENGTH says.
abbrev queue_of_eight : List BleEvent → BleEvent → Option (List BleEvent)
queue_of_eight queue event = if ltb (list_length queue) 8 then some (queue ++ event ∷ []) else none

abbrev first : List BleEvent → Option (BleEvent × List BleEvent)
first [] = none
first (event ∷ queue) = some (event, queue)

abbrev host : Host
host = record { queue_send = queue_of_eight; to_flat = λ packet. some packet; no_handle = 0xFFFF }

host-Appends : Appends host
host-Appends queue queue' event =
    if_cases (λ (r : Option (List BleEvent)). r ≡ some queue' → queue' ≡ queue ++ event ∷ [])
      (ltb (list_length queue) 8) (λ _ e. sym (some-injective (queue ++ event ∷ []) queue' e))
      (λ _ e. absurd (ground (arith, e)))

first-TakesFirst : TakesFirst first
first-TakesFirst [] queue' event e = absurd (ground (arith, e))
first-TakesFirst (event' ∷ queue) queue' event e =
    ap (λ (r : BleEvent × List BleEvent). r.0 ∷ r.1)
      (some-injective (event', queue) (event, queue') e)

-- A frame of 20 bytes, which takes two packets at the smallest MTU.
abbrev frame : List ℕ
frame = 68 ∷ 67 ∷ 1 ∷ 0 ∷ 1 ∷ 0 ∷ 7 ∷ 0 ∷ 8 ∷ 0 ∷ 1 ∷ 2 ∷ 3 ∷ 4 ∷ 5 ∷ 6 ∷ 7 ∷ 8 ∷ 88 ∷ 224 ∷ []

frame_decodes : (decode_into frame unset_frame).0 ≡ ok
unfolding decode_into read_u16_le crc16
frame_decodes = refl

abbrev open_link : LinkState
open_link = record (initial_link 0xFFFF) {
  connected = true;
  encrypted = true;
  subscribed = true;
  connection_handle = 1;
  event_queue = some [];
}

abbrev clock : ℕ → ℕ
clock i = 1000 + i % 8

abbrev all_out : List ℕ → Notified
all_out packet = sent

two_packets : list_length (send_frame host all_out open_link (some frame)).1 ≡ 2
unfolding send_frame send_checked send_fragments fragment_capacity decode_into read_u16_le crc16
two_packets = refl

deliver-send_frame_example :
    let (link, packets, result) = send_frame host all_out open_link (some frame) in
    (result ≡ esp_ok)
    × (deliver host clock open_link 0 packets
        ≡ post_event host (reset_reassembly open_link) (frame_event open_link frame))
deliver-send_frame_example =
    deliver-send_frame host (λ packet h. refl) all_out (λ packet. refl) open_link open_link frame
      clock
      (record {
        is_connected = refl;
        is_encrypted = refl;
        is_subscribed = refl;
        has_handle = λ e. omega arith;
        least_mtu = omega arith;
        most_mtu = omega arith;
        is_u16 = omega arith;
      })
      frame_decodes (λ i. omega arith)

send_frame-Fits_example :
    let (link', packets, result) = send_frame host all_out open_link (some frame) in
    All Fits packets
    × (packets ≢ []
        → (open_link.connected ≡ true)
          × (open_link.encrypted ≡ true)
          × (open_link.subscribed ≡ true))
send_frame-Fits_example = send_frame-Fits host all_out open_link (some frame) (omega arith)

abbrev platform : Platform
platform = record {
  queue_created = true;
  mutex_created = true;
  nvs_flash_init = esp_ok;
  nimble_port_init = esp_ok;
  count_cfg = 0;
  add_svcs = 0;
  hid_add = 0;
  device_name_set = 0;
}

-- The frame in one packet, number 5 of the peer.
abbrev packet : List ℕ
packet = 5 ∷ 0 ∷ 0 ∷ 1 ∷ frame

abbrev started_link : LinkState
started_link = record (initial_link 0xFFFF) {
  started = true;
  event_queue = some [];
  codex_send_mutex = true;
}

start_runs : start platform (initial_link 0xFFFF) ≡ (started_link, esp_ok)
unfolding start host_result is_esp_ok
start_runs = refl

after_packet :
    Reached Bool host
      (handle_rx_fragment host (start platform (initial_link 0xFFFF)).0 packet 100).0
after_packet =
    written packet 100 (start platform (initial_link 0xFFFF)).0
      (started platform (initial_link 0xFFFF) initial)

-- Every text parses, as an object that has no members.
abbrev rpc : Rpc Bool
rpc = record {
  cjson = record {
    parse = λ bytes. some (true, 1);
    kind = λ node. object [];
    member = λ node name. none;
  };
  to_u32 = λ value. 0;
  is_dim = λ value. false;
  print_response = λ identifier response. some [];
}

abbrev channel : Channel
channel = record {
  input_registered = true;
  semaphore_taken = true;
  link_in_round = λ round link. link;
  notify_report = λ round report. sent;
}

-- The frame's packet has been taken in, and a report of Codex arrives.
abbrev inbox : Inbox
inbox = record {
  inbox_link = (handle_rx_fragment host (start platform (initial_link 0xFFFF)).0 packet 100).0;
  rpc_buffer = [];
  responses = [];
}

abbrev report : List ℕ
report = report_of (method_prefix ++ 125 ∷ [])

Reached-IsLink_example :
    IsLink 0xFFFF (codex_report_written rpc host channel true 6 (some report) inbox).inbox_link
Reached-IsLink_example =
    Reached-IsLink host host-Appends
      (codex_report_written rpc host channel true 6 (some report) inbox).inbox_link
      (codex_written rpc channel true 6 (some report) inbox after_packet)

packet_received :
    (receive_event first
      (handle_rx_fragment host (start platform (initial_link 0xFFFF)).0 packet 100).0).1
    ≡ some (frame_event started_link frame)
unfolding receive_event handle_rx_fragment take_fragment append_fragment finish_assembly is_ok
    post_event reset_reassembly start host_result is_esp_ok decode_into read_u16_le crc16
packet_received = refl

receive_event-IsSound_example :
    (decode_into (take 20 (frame_event started_link frame).frame) unset_frame).0 ≡ ok
receive_event-IsSound_example =
    receive_event-IsSound host host-Appends
      (handle_rx_fragment host (start platform (initial_link 0xFFFF)).0 packet 100).0 first
      (frame_event started_link frame) after_packet first-TakesFirst packet_received refl
