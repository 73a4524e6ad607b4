-- ===== src/BleLink/Codex/Examples.antt =====
-- The channel of Codex at concrete messages, and its theorems there.
use esp32_monitor.Base.{
  ℕ, ◌≡◌, refl, arith, Bool, true, false, Option, none, some, List, [], ◌∷◌, ◌++◌, ◌&&◌, ◌==◌,
  replicate, length,
}
use esp32_monitor.Esp.{esp_ok, invalid_state}
use esp32_monitor.Json.{object}
use esp32_monitor.BleLink.{Host, LinkState, initial_link, running}
use esp32_monitor.BleLink.Send.{sent}
use esp32_monitor.BleLink.Startup.{codex_ready}
use esp32_monitor.BleLink.Codex.{Channel, newline, codex_notify_json, notify_chunks, can_notify}
use esp32_monitor.BleLink.Codex.Requests.{Rpc, codex_status_from_light, status_of_channels}
use esp32_monitor.BleLink.Codex.Framing.{
  Carries, payloads, codex_notify_json-Carries, codex_notify_json_ends,
}
use esp32_monitor.BleLink.Codex.Buffer.{Inbox, method_prefix}
use esp32_monitor.BleLink.Codex.Buffer.Assembly.{write_all, answered, codex_report_written-answered}

abbrev host : Host
host = record {
  queue_send = λ queue event. some (queue ++ event ∷ []);
  to_flat = λ packet. some packet;
  no_handle = 0xFFFF;
}

abbrev channel : Channel
channel = record {
  input_registered = true;
  semaphore_taken = true;
  link_in_round = λ round link. link;
  notify_report = λ round report. sent;
}

abbrev link : LinkState
link = record (initial_link 0xFFFF) {
  connected = true;
  encrypted = true;
  codex_subscribed = true;
  connection_handle = 1;
  codex_send_mutex = true;
}

-- A message of 70 bytes, which takes two reports.
abbrev long : List ℕ
long = replicate 70 65

two_reports : length (codex_notify_json host channel link long).0 ≡ 2
unfolding codex_notify_json notify_chunks codex_ready
two_reports = refl

blue_light : codex_status_from_light 0x0000FF false none ≡ running
unfolding codex_status_from_light status_of_channels
blue_light = refl

can_refl : (round : ℕ) → can_notify host channel link round ≡ true
unfolding codex_ready
can_refl round = refl

-- The peer goes away after the first report.
abbrev leaving : Channel
leaving = record channel {
  link_in_round = λ round link. record link { connected = link.connected && round == 0 };
}

left_early : (codex_notify_json host leaving link long).1 ≡ invalid_state
unfolding codex_notify_json notify_chunks codex_ready
left_early = refl

codex_notify_json-Carries_example :
    Carries (long ++ newline ∷ []) (codex_notify_json host leaving link long)
codex_notify_json-Carries_example = codex_notify_json-Carries host leaving link long

codex_notify_json_ends_example :
    ((codex_notify_json host channel link long).1 ≡ esp_ok)
    × (payloads (codex_notify_json host channel link long).0 ≡ long ++ newline ∷ [])
codex_notify_json_ends_example = codex_notify_json_ends host channel link long (record {
  can = can_refl;
  registered = refl;
  mutex = refl;
  taken = refl;
  accepts = λ round report. refl;
})

-- A document is complete at eleven bytes.
abbrev parse : List ℕ → Option (Bool × ℕ)
parse (a ∷ b ∷ c ∷ d ∷ e ∷ f ∷ g ∷ h ∷ i ∷ j ∷ k ∷ []) = some (true, 11)
parse _ = none

abbrev rpc : Rpc Bool
rpc = record {
  cjson = record { parse = parse; kind = λ node. object []; member = λ node name. none };
  to_u32 = λ value. 0;
  is_dim = λ value. false;
  print_response = λ identifier response. some [];
}

abbrev inbox : Inbox
inbox = record { inbox_link = link; rpc_buffer = 1 ∷ 2 ∷ []; responses = [] }

codex_report_written-answered_example :
    write_all rpc host channel (method_prefix ∷ (58 ∷ 125 ∷ []) ∷ []) inbox
    ≡ answered rpc host channel true inbox
codex_report_written-answered_example =
    codex_report_written-answered rpc host channel method_prefix ((58 ∷ 125 ∷ []) ∷ []) true inbox
      (omega arith, omega arith) refl refl ((omega arith, omega arith), refl, 11, refl)
      (omega arith)
