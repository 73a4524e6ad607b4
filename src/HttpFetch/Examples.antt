-- ===== src/HttpFetch/Examples.antt =====
-- A request at concrete answers, and its theorem there.
use mathlib.Core.Path.{subst}
use mathlib.Core.Option.{some-injective}
use esp32_monitor.Base.{
  ℕ, ◌≤◌, ◌≡◌, refl, arith, true, some, List, [], ◌∷◌, length, length-take, take,
}
use esp32_monitor.Esp.{esp_ok, is_esp_ok}
use esp32_monitor.HttpFetch.{
  Client, Inflater, on_data, other_event, http_get_json, finish_request, handle_events,
  http_event_handler,
}
use esp32_monitor.HttpFetch.Answer.{IsAnswer, http_get_json-IsAnswer}

-- It copies what fits.
abbrev inflater : Inflater
inflater = record {
  inflate = λ input size. some (take size input);
  output_allocated = true;
  decompressor_allocated = true;
}

abbrev client : Client
client = record {
  mutex_created = true;
  mutex_taken = true;
  buffer_allocated = true;
  client_created = true;
  headers_complete = true;
  events = other_event ∷ on_data (123 ∷ []) ∷ on_data (125 ∷ []) ∷ [];
  performed = esp_ok;
  status_code = 200;
}

two_parts : http_get_json client inflater 16 ≡ (esp_ok, 123 ∷ 125 ∷ [])
unfolding http_get_json finish_request handle_events http_event_handler is_esp_ok
two_parts = refl

inflater_bounded :
    (input output : List ℕ) (size : ℕ)
    → inflater.inflate input size ≡ some output
    → length output ≤ size
inflater_bounded input output size e =
    subst (λ (xs : List ℕ). length xs ≤ size) (some-injective (take size input) output e)
      (omega (arith, length-take size input))

http_get_json-IsAnswer_example : IsAnswer client.events 16 (http_get_json client inflater 16)
http_get_json-IsAnswer_example = http_get_json-IsAnswer client inflater 16 inflater_bounded
