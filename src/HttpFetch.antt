-- ===== src/HttpFetch.antt =====
-- components/http_fetch/http_fetch.c. The client of ESP-IDF, the inflater of miniz and the heap are
-- the records Client and Inflater.
pub mod Body
pub mod Answer
mod Examples
use esp32_monitor.Base.{
  ℕ, ◌+◌, ◌-◌, ◌*◌, Bool, true, false, not, Option, none, some, List, [], ◌∷◌, ◌++◌, ◌&&◌, ◌||◌,
  ltb, leb, ◌==◌, ◌!=◌, if◌then◌else◌, length, drop, take, get_or, bit_and,
}
use esp32_monitor.Esp.{
  EspErr, esp_ok, fail, no_mem, invalid_arg, invalid_response, timeout, is_esp_ok,
}

-- response_context_t; `data` up to its length.
pub record Response : Type 0 where
  pub received : List ℕ
  pub capacity : ℕ
  pub overflow : Bool

-- An event with data, or another.
pub data HttpEvent : Type 0 where
  on_data : (bytes : List ℕ) → HttpEvent
  other_event : HttpEvent

unfoldable pub http_event_handler : HttpEvent → Response → Response × EspErr
http_event_handler other_event context = (context, esp_ok)
http_event_handler (on_data bytes) context =
    if length bytes == 0
    then (context, esp_ok)
    else if ltb context.capacity (length context.received + length bytes)
    then (record context { overflow = true }, no_mem)
    else (record context { received = context.received ++ bytes }, esp_ok)

unfoldable pub handle_events : List HttpEvent → Response → Response
handle_events [] context = context
handle_events (event ∷ events) context = handle_events events (http_event_handler event context).0

-- What is outside: tinfl_decompress to a buffer of a size, `none` for a status other than DONE, and
-- whether the two allocations succeed.
pub record Inflater : Type 0 where
  pub inflate : List ℕ → ℕ → Option (List ℕ)
  pub output_allocated : Bool
  pub decompressor_allocated : Bool

-- compressed[offset], and the bytes from there to the next 0.
abbrev pub byte_at : List ℕ → ℕ → ℕ
byte_at compressed offset = get_or compressed offset 0

abbrev pub string_length : List ℕ → ℕ
string_length [] = 0
string_length (byte ∷ bytes) = let rest = string_length bytes in if byte == 0 then 0 else rest + 1

abbrev pub has_flag : List ℕ → ℕ → Bool
has_flag compressed flag = bit_and (byte_at compressed 3) flag != 0

-- The steps over the optional fields of the header; `none` for an extra field out of range.
abbrev pub skip_extra : List ℕ → ℕ → Option ℕ
skip_extra compressed header =
    if not (has_flag compressed 4)
    then some header
    else if ltb (length compressed) (header + 2)
    then none
    else some (header + 2 + byte_at compressed header + byte_at compressed (header + 1) * 256)

abbrev pub skip_string : List ℕ → ℕ → ℕ → ℕ
skip_string compressed flag header =
    if has_flag compressed flag then header + string_length (drop header compressed) + 1 else header

abbrev pub skip_checksum : List ℕ → ℕ → ℕ
skip_checksum compressed header = if has_flag compressed 2 then header + 2 else header

abbrev pub header_end : List ℕ → ℕ → ℕ
header_end compressed header =
    skip_checksum compressed (skip_string compressed 16 (skip_string compressed 8 header))

-- The length that the trailer gives.
abbrev pub trailer_size : List ℕ → ℕ
trailer_size compressed =
    let n = length compressed in
    byte_at compressed (n - 4)
    + byte_at compressed (n - 3) * 256
    + byte_at compressed (n - 2) * 65536
    + byte_at compressed (n - 1) * 16777216

unfoldable pub output_capacity : ℕ → ℕ → ℕ
output_capacity isize max_output =
    let capacity = if isize == 0 || ltb max_output isize then max_output else isize in
    if ltb capacity 1024 then 1024 else capacity

module _ (inflater : Inflater) where
  abbrev pub inflated : Option (List ℕ) → EspErr × List ℕ
  inflated none = (invalid_response, [])
  inflated (some output) = (esp_ok, output)

  -- With the end of the header.
  unfoldable pub inflate_body : List ℕ → ℕ → ℕ → EspErr × List ℕ
  inflate_body compressed max_output header =
      let body = take (length compressed - header - 8) (drop header compressed) in
      let out =
        inflated (inflater.inflate body (output_capacity (trailer_size compressed) max_output)) in
      if ltb (length compressed) (header + 8)
      then (invalid_response, [])
      else if not inflater.output_allocated || not inflater.decompressor_allocated
      then (no_mem, [])
      else out

  abbrev pub inflate_after : List ℕ → ℕ → Option ℕ → EspErr × List ℕ
  inflate_after compressed max_output none = (invalid_response, [])
  inflate_after compressed max_output (some header) =
      inflate_body compressed max_output (header_end compressed header)

  -- The result, and the output where it is esp_ok.
  unfoldable pub inflate_gzip : List ℕ → ℕ → EspErr × List ℕ
  inflate_gzip compressed max_output =
      let out = inflate_after compressed max_output (skip_extra compressed 10) in
      if ltb (length compressed) 18 || byte_at compressed 2 != 8
      then (invalid_response, [])
      else out

-- desk_http_fetch_init, where there is a mutex or not and one can be created or not: whether there
-- is one after it, and the result.
unfoldable pub http_fetch_init : Bool → Bool → Bool × EspErr
http_fetch_init true created = (true, esp_ok)
http_fetch_init false created = (created, if created then esp_ok else no_mem)

-- What the client meets in a request: the mutex, the allocations, the headers, the events that it
-- hands over, its result and the status of the response.
pub record Client : Type 0 where
  pub mutex_created : Bool
  pub mutex_taken : Bool
  pub buffer_allocated : Bool
  pub client_created : Bool
  pub headers_complete : Bool
  pub events : List HttpEvent
  pub performed : EspErr
  pub status_code : ℕ

abbrev pub empty_response : ℕ → Response
empty_response capacity = record { received = []; capacity = capacity; overflow = false }

abbrev pub max_output_of : ℕ → ℕ
max_output_of response_capacity =
    if ltb (256 * 1024) (response_capacity * 8) then 256 * 1024 else response_capacity * 8

module _ (client : Client) (inflater : Inflater) where
  abbrev pub is_gzip : List ℕ → Bool
  is_gzip body = leb 2 (length body) && byte_at body 0 == 0x1f && byte_at body 1 == 0x8b

  -- After the request.
  unfoldable pub finish_request : ℕ → Response → EspErr × List ℕ
  finish_request response_capacity context =
      let unpacked = inflate_gzip inflater context.received (max_output_of response_capacity) in
      if not (is_esp_ok client.performed)
      then (client.performed, [])
      else if context.overflow
      then (no_mem, [])
      else if client.status_code != 200 || length context.received == 0
      then (fail, [])
      else if is_gzip context.received
      then unpacked
      else (esp_ok, context.received)

  -- The result and the response, with pointers that are there and a time-out that is positive.
  unfoldable pub http_get_json : ℕ → EspErr × List ℕ
  http_get_json response_capacity =
      let finished =
        finish_request response_capacity
          (handle_events client.events (empty_response response_capacity)) in
      if response_capacity == 0
      then (invalid_arg, [])
      else if not client.mutex_created
      then (no_mem, [])
      else if not client.mutex_taken
      then (timeout, [])
      else if not client.buffer_allocated || not client.client_created
      then (no_mem, [])
      else if not client.headers_complete
      then (invalid_arg, [])
      else finished
