-- ===== src/BleLink/Codex.antt =====
-- The channel of Codex in components/ble_link/ble_link.c: reports of a human interface device that
-- carry JSON, out through codex_notify_json and in through codex_report_written.
pub mod Requests
pub mod Framing
pub mod Buffer
mod Examples
use esp32_monitor.Base.{
  ℕ, zero, suc, ◌+◌, ◌-◌, ℤ, pos, negsuc, Bool, true, false, not, Option, none, some, List, [], ◌∷◌,
  ◌++◌, ◌&&◌, ◌||◌, ltb, leb, ◌==◌, if◌then◌else◌, u8, take, drop, length as list_length, replicate,
}
use esp32_monitor.Esp.{EspErr, esp_ok, invalid_arg, invalid_state, no_mem, timeout}
use esp32_monitor.BleLink.{Host, LinkState}
use esp32_monitor.BleLink.Send.{Notified, handed}
use esp32_monitor.BleLink.Startup.{codex_ready}

abbrev pub codex_report_id : ℕ
codex_report_id = 6

abbrev pub codex_report_body_size : ℕ
codex_report_body_size = 63

abbrev pub codex_report_payload_size : ℕ
codex_report_payload_size = 61

abbrev pub codex_rpc_buffer_size : ℕ
codex_rpc_buffer_size = 4096

-- What the sender meets: whether the input report is registered, whether the semaphore is got in
-- time, the link as it stands in each round of the loop, which the host task may have changed since
-- the call, and what becomes of the notification of each round.
pub record Channel : Type 0 where
  pub input_registered : Bool
  pub semaphore_taken : Bool
  pub link_in_round : ℕ → LinkState → LinkState
  pub notify_report : ℕ → List ℕ → Notified

abbrev pub newline : ℕ
newline = 10

-- The report with a chunk of the message.
abbrev pub report_of : List ℕ → List ℕ
report_of chunk =
    2 ∷ u8 (list_length chunk) ∷ chunk
    ++ replicate (codex_report_payload_size - list_length chunk) 0

module _ (host : Host) (channel : Channel) (link : LinkState) where
  abbrev pub can_notify : ℕ → Bool
  can_notify round =
      let current = channel.link_in_round round link in
      codex_ready current && not (current.connection_handle == host.no_handle)

  -- The loop on the bytes that are left, which are the message and the newline, with fuel and the
  -- number of the round. Each round reads the link again.
  unfoldable pub notify_chunks : ℕ → ℕ → List ℕ → List (List ℕ) × EspErr
  notify_chunks zero round bytes = ([], esp_ok)
  notify_chunks (suc fuel) round bytes =
      let report = report_of (take codex_report_payload_size bytes) in
      let rest = notify_chunks fuel (suc round) (drop codex_report_payload_size bytes) in
      if list_length bytes == 0
      then ([], esp_ok)
      else if not (can_notify round)
      then ([], invalid_state)
      else handed (channel.notify_report round report) report rest

  -- The reports handed over and the result. Every round takes a byte at least.
  unfoldable pub codex_notify_json : List ℕ → List (List ℕ) × EspErr
  codex_notify_json json =
      let framed = json ++ newline ∷ [] in
      let sent = notify_chunks (list_length framed) 0 framed in
      if not channel.input_registered || not link.codex_send_mutex
      then ([], invalid_state)
      else if not channel.semaphore_taken
      then ([], timeout)
      else sent

-- The message that desk_ble_link_codex_send_key builds, with the agent where it has one, and the
-- message of desk_ble_link_codex_send_joystick.
pub data CodexMessage (Float : Type 0) : Type 0 where
  hid_key : (key : List ℕ) (action : ℕ) (agent : Option ℕ) → CodexMessage Float
  joystick : (angle distance : Float) → CodexMessage Float

-- A float as the code tests it, with the constants that it uses.
pub record Floats (Float : Type 0) : Type 0 where
  pub is_finite : Float → Bool
  pub is_below_0 : Float → Bool
  pub is_above_1 : Float → Bool
  pub quarters : ℕ → Float

abbrev pub agent_of_int8 : ℤ → Option ℕ
agent_of_int8 (pos agent) = some agent
agent_of_int8 (negsuc n) = none

abbrev pub is_agent : ℤ → Bool
is_agent (pos agent) = leb agent 5
is_agent (negsuc n) = n == 0

module _ {Float : Type 0} (floats : Floats Float)
    -- cJSON_PrintUnformatted of the message, or `none` where memory runs out on the way.
    (print : CodexMessage Float → Option (List ℕ)) (host : Host) (channel : Channel)
    (link : LinkState) where
  abbrev pub send_printed : Option (List ℕ) → List (List ℕ) × EspErr
  send_printed none = ([], no_mem)
  send_printed (some json) = codex_notify_json host channel link json

  unfoldable pub codex_send_key : List ℕ → ℕ → ℤ → List (List ℕ) × EspErr
  codex_send_key key action agent =
      let sent = send_printed (print (hid_key key action (agent_of_int8 agent))) in
      if list_length key == 0 || ltb 2 action || not (is_agent agent)
      then ([], invalid_arg)
      else sent

  abbrev pub is_deflection : Float → Bool
  is_deflection value =
      floats.is_finite value && not (floats.is_below_0 value) && not (floats.is_above_1 value)

  unfoldable pub codex_send_joystick : Float → Float → List (List ℕ) × EspErr
  codex_send_joystick angle distance =
      let sent = send_printed (print (joystick angle distance)) in
      if not (is_deflection angle && is_deflection distance) then ([], invalid_arg) else sent
