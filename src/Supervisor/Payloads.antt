-- ===== src/Supervisor/Payloads.antt =====
-- The payload handlers of firmware/main/app_main.c: what they share, which is the reading of a JSON
-- document. `none` is the refusal of a payload.
pub mod States
pub mod Agents
pub mod Services
pub mod Depth
pub mod Ranges
use esp32_monitor.Base.{
  ℕ, ◌+◌, ◌-◌, Bool, true, false, not, Option, none, some, List, [], ◌∷◌, ltb, ◌==◌, ◌&&◌, ◌||◌,
  if◌then◌else◌, length, text, same_bytes,
}
use esp32_monitor.Json.{Double, Cjson, is_below_zero, is_above, get_item, as_number, whole_object}
use esp32_monitor.AppModel.{
  AiTaskStatus, ai_idle, ai_running, ai_waiting_permission, ai_waiting_input, ai_completed,
  ai_failed,
}

abbrev pub json_max_nesting_depth : ℕ
json_max_nesting_depth = 16

abbrev pub uint8_max : ℕ
uint8_max = 0xFF

abbrev pub uint16_max : ℕ
uint16_max = 0xFFFF

abbrev pub uint32_max : ℕ
uint32_max = 0xFFFFFFFF

-- The scan of json_depth_within_limit: the depth, and whether the position is in a string and after
-- a backslash there.
pub record Scan : Type 0 where
  pub depth : ℕ
  pub in_string : Bool
  pub escaped : Bool

abbrev pub is_quote : ℕ → Bool
is_quote byte = byte == 34

abbrev pub is_backslash : ℕ → Bool
is_backslash byte = byte == 92

abbrev pub opens : ℕ → Bool
opens byte = byte == 123 || byte == 91

abbrev pub closes : ℕ → Bool
closes byte = byte == 125 || byte == 93

-- A character of a string.
abbrev pub scan_string : ℕ → Scan → Scan
scan_string byte scan =
    if scan.escaped
    then record scan { escaped = false }
    else if is_backslash byte
    then record scan { escaped = true }
    else if is_quote byte
    then record scan { in_string = false }
    else scan

-- A character outside of strings, without the comparison of the depth.
abbrev pub scan_structure : ℕ → Scan → Scan
scan_structure byte scan =
    if is_quote byte
    then record scan { in_string = true }
    else if opens byte
    then record scan { depth = scan.depth + 1 }
    else if closes byte
    then record scan { depth = scan.depth - 1 }
    else scan

abbrev pub exceeds : ℕ → ℕ → Scan → Bool
exceeds max_depth byte scan =
    not scan.in_string && not (is_quote byte) && opens byte && ltb max_depth (scan.depth + 1)

unfoldable pub scan_within_limit : ℕ → Scan → List ℕ → Bool
scan_within_limit max_depth scan [] = true
scan_within_limit max_depth scan (byte ∷ bytes) =
    let next = if scan.in_string then scan_string byte scan else scan_structure byte scan in
    let rest = scan_within_limit max_depth next bytes in
    if exceeds max_depth byte scan then false else rest

abbrev pub no_scan : Scan
no_scan = record { depth = 0; in_string = false; escaped = false }

unfoldable pub json_depth_within_limit : List ℕ → ℕ → Bool
json_depth_within_limit payload max_depth = scan_within_limit max_depth no_scan payload

module _ {Node : Type 0} (cjson : Cjson Node) where
  -- The value of a number that is an integer from 0 to `maximum`.
  abbrev pub integer_up_to : ℕ → Option Double → Option ℕ
  integer_up_to maximum none = none
  integer_up_to maximum (some value) =
      if is_below_zero value || is_above value maximum
      then none
      else if value.fraction
      then none
      else some value.whole

  unfoldable pub json_read_u32 : Node → List ℕ → ℕ → Option ℕ
  json_read_u32 node name maximum =
      integer_up_to maximum (as_number cjson (get_item cjson (some node) name))

  unfoldable pub parse_json_object : List ℕ → Option Node
  parse_json_object payload =
      if length payload == 0 || not (json_depth_within_limit payload json_max_nesting_depth)
      then none
      else whole_object cjson payload (cjson.parse payload)

-- The table of parse_ai_status, searched in its order.
abbrev pub ai_statuses : List (List ℕ × AiTaskStatus)
ai_statuses =
    (text "idle", ai_idle)
    ∷ (text "running", ai_running)
    ∷ (text "waiting_permission", ai_waiting_permission)
    ∷ (text "waiting_input", ai_waiting_input)
    ∷ (text "completed", ai_completed)
    ∷ (text "failed", ai_failed)
    ∷ []

abbrev pub find_status : List (List ℕ × AiTaskStatus) → List ℕ → Option AiTaskStatus
find_status [] status = none
find_status (row ∷ rows) status =
    let rest = find_status rows status in if same_bytes status row.0 then some row.1 else rest

unfoldable pub parse_ai_status : List ℕ → Option AiTaskStatus
parse_ai_status status = find_status ai_statuses status
