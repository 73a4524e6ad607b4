-- ===== src/Market/Examples.antt =====
-- The market worker at concrete answers, and its theorems there.
use esp32_monitor.Base.{
  ℕ, ◌+◌, pos, negsuc, arith, ◌≡◌, refl, true, false, none, some, List, [], ◌∷◌, ◌++◌, length, text,
  ltb, ◌==◌, if◌then◌else◌,
}
use esp32_monitor.Esp.{esp_ok}
use esp32_monitor.Json.{
  Cjson, Kind, Double, object, array, string, number, other, as_array, as_number, as_string,
}
use esp32_monitor.AppModel.{MarketState, no_market}
use esp32_monitor.HttpFetch.{Client, Inflater, on_data}
use esp32_monitor.Worker.{WorkerEvent, Send}
use esp32_monitor.Market.Tokens.{find_token, find_from}
use esp32_monitor.Market.Search.{IsFirst, find_token-IsFirst}
use esp32_monitor.Market.Parser.{
  Reals, parse_sse, sse_entries, sse_entry, slot_for_sse_code, convert_values,
  display_name_for_slot,
}
use esp32_monitor.Market.Szse.{parse_szse}
use esp32_monitor.Market.Answers.{answer}
use esp32_monitor.Market.Quotes.{quote, parse_szse_printed}
use esp32_monitor.Market.Task.{Round, component_name}
use esp32_monitor.Market.Runs.{MarketCall, start_call, network_call, round_of, receive_call}

find_token-IsFirst_example :
    IsFirst (text "ab") (text "aabab") (find_token (text "aabab") (text "ab"))
find_token-IsFirst_example = find_token-IsFirst (text "aabab") (text "ab") (omega arith)

found_second : find_token (text "aabab") (text "ab") ≡ some 1
unfolding find_token find_from
found_second = refl

-- 10243.5 for any text of points, with -0.52 for a text that starts with a minus sign.
abbrev points : Double
points = record { negative = false; whole = 10243; fraction = true; finite = true }

abbrev change : Double
change = record { negative = true; whole = 0; fraction = true; finite = true }

abbrev strtod : List ℕ → Double × ℕ × ℕ
strtod [] = (points, 0, 0)
strtod (byte ∷ bytes) = (if byte == b'-' then change else points, length (byte ∷ bytes), 0)

abbrev reals : Reals
reals = record { llround_x100 = λ x. pos 1024350; lround_x100 = λ x. negsuc 51; strtod = strtod }

parse_szse_printed_example :
    parse_szse reals
      (answer (text "399001") (text "10243.50") (text "-0.52"))
      (text "399001")
      component_name
    ≡ some (quote reals points change (text "399001") component_name)
parse_szse_printed_example =
    parse_szse_printed reals (text "399001") (text "10243.50") (text "-0.52") (text "399001")
      component_name points change (omega arith) (omega arith) (omega arith) (omega arith)
      (omega arith) (omega arith) (record { written = omega arith; whole = refl; finite = refl })
      (record { written = omega arith; whole = refl; finite = refl })
      (record {
        not_negative = refl;
        not_high = refl;
        not_low = refl;
        not_steep = refl;
        points_fit = refl;
        change_fits = refl;
      })

-- A document whose list has the four indices: the nodes are numbers.
abbrev entry_of : ℕ → Kind ℕ
entry_of code = array (9 ∷ 7 ∷ 8 ∷ code ∷ 9 ∷ [])

abbrev node_kind : ℕ → Kind ℕ
node_kind node =
    if node == 0
    then object (1 ∷ [])
    else if node == 1
    then array (2 ∷ 3 ∷ 4 ∷ 5 ∷ [])
    else if ltb node 6
    then entry_of (node + 10)
    else if node == 7
    then number points
    else if node == 8
    then number change
    else if node == 12
    then string (some (text "000001"))
    else if node == 13
    then string (some (text "000688"))
    else if node == 14
    then string (some (text "000300"))
    else if node == 15
    then string (some (text "000905"))
    else other

abbrev cjson : Cjson ℕ
cjson = record {
  parse = λ json. some (0, length json);
  kind = node_kind;
  member = λ node name. if node == 0 then some 1 else none;
}

four_found : (parse_sse reals cjson (text "{}") no_market).1 ≡ true
unfolding parse_sse sse_entries sse_entry slot_for_sse_code convert_values display_name_for_slot
    as_array as_number as_string
four_found = refl

abbrev inflater : Inflater
inflater = record {
  inflate = λ input size. none;
  output_allocated = true;
  decompressor_allocated = true;
}

abbrev client : List ℕ → Client
client body = record {
  mutex_created = true;
  mutex_taken = true;
  buffer_allocated = true;
  client_created = true;
  headers_complete = true;
  events = on_data body ∷ [];
  performed = esp_ok;
  status_code = 200;
}

abbrev round : Round
round = record {
  checked_at = 1748914200;
  sse_client = client (text "{}");
  component_at = 1748914201;
  component_client = client (answer (text "399001") (text "10243.50") (text "-0.52"));
  chinext_at = 1748914202;
  chinext_client = client (answer (text "399006") (text "2003.10") (text "-1.20"));
  trading_at = 1748914203;
  local_time = some (record { weekday = 2; hour = 9; minute = 30 });
  finished_at = 1748914203;
}

abbrev send : Send (WorkerEvent MarketState)
send queue event = if ltb (length queue) 3 then some (queue ++ event ∷ []) else none

abbrev calls : List MarketCall
calls =
    start_call true true ∷ network_call true ∷ round_of round ∷ round_of round ∷ receive_call ∷ []
