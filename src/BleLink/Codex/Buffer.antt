-- ===== src/BleLink/Codex/Buffer.antt =====
-- codex_report_written: the reports that Codex writes are put together to a request.
pub mod Assembly
use esp32_monitor.Base.{
  ℕ, ◌+◌, Bool, true, false, not, Option, none, some, List, [], ◌∷◌, ◌++◌, ◌&&◌, ◌||◌, ltb, leb,
  ◌==◌, ◌!=◌, if◌then◌else◌, take, drop, length as list_length, get_or, text, same_bytes,
}
use esp32_monitor.BleLink.{Host, LinkState}
use esp32_monitor.BleLink.Codex.{
  Channel, codex_report_id, codex_report_body_size, codex_report_payload_size,
  codex_rpc_buffer_size,
}
use esp32_monitor.BleLink.Codex.Requests.{Rpc, handle_codex_rpc}

-- The link, what codex_rpc_buffer holds up to codex_rpc_length, and the reports that went out.
pub record Inbox : Type 0 where
  pub inbox_link : LinkState
  pub rpc_buffer : List ℕ
  pub responses : List (List ℕ)

-- The text of method_prefix.
abbrev pub method_prefix : List ℕ
method_prefix = 123 ∷ 34 ∷ 109 ∷ 101 ∷ 116 ∷ 104 ∷ 111 ∷ 100 ∷ 34 ∷ []

abbrev pub starts_request : List ℕ → Bool
starts_request payload = same_bytes (take 9 payload) method_prefix

abbrev pub is_brace : ℕ → Bool
is_brace byte = byte == 123

-- The bytes from the first brace on.
abbrev pub from_brace : List ℕ → List ℕ
from_brace [] = []
from_brace (byte ∷ bytes) =
    let rest = from_brace bytes in if is_brace byte then byte ∷ bytes else rest

-- Whether the report starts with its identifier.
abbrev pub input_offset : List ℕ → ℕ
input_offset report =
    if leb (codex_report_body_size + 1) (list_length report) && get_or report 0 0 == codex_report_id
    then 1
    else 0

unfoldable pub payload_at : ℕ → List ℕ → Option (List ℕ)
payload_at offset report =
    let count = get_or report (offset + 1) 0 in
    if ltb (list_length report) (offset + 2) || get_or report offset 0 != 2
    then none
    else if ltb codex_report_payload_size count || ltb (list_length report) (offset + 2 + count)
    then none
    else some (take count (drop (offset + 2) report))

-- The part of the report that the code takes, or `none` where it returns before it has one.
unfoldable pub payload_of_report : List ℕ → Option (List ℕ)
payload_of_report report =
    let payload = payload_at (input_offset report) report in
    if ltb (list_length report) 2 then none else payload

module _ {Node : Type 0} (rpc : Rpc Node) (host : Host) (channel : Channel) where
  -- With the parser's answer to what the buffer holds.
  abbrev pub handle_parsed : Option (Node × ℕ) → Inbox → Inbox
  handle_parsed none inbox = inbox
  handle_parsed (some (request, parse_end)) inbox =
      let (link, reports) = handle_codex_rpc rpc host channel request inbox.inbox_link in
      record { inbox_link = link; rpc_buffer = []; responses = inbox.responses ++ reports }

  -- What the buffer holds where a payload of a new request meets an unfinished one.
  abbrev pub before_payload : List ℕ → List ℕ → List ℕ
  before_payload payload buffer =
      if starts_request payload && not (list_length buffer == 0) then [] else buffer

  abbrev pub trimmed : List ℕ → List ℕ → List ℕ
  trimmed buffer payload = if list_length buffer == 0 then from_brace payload else payload

  unfoldable pub append_payload : List ℕ → List ℕ → Inbox → Inbox
  append_payload buffer payload inbox =
      let joined = buffer ++ payload in
      let parsed = handle_parsed (rpc.cjson.parse joined) (record inbox { rpc_buffer = joined }) in
      if list_length payload == 0
        || ltb codex_rpc_buffer_size (list_length buffer + list_length payload)
      then record inbox { rpc_buffer = [] }
      else parsed

  unfoldable pub take_payload : Option (List ℕ) → Inbox → Inbox
  take_payload none inbox = inbox
  take_payload (some payload) inbox =
      let buffer = before_payload payload inbox.rpc_buffer in
      append_payload buffer (trimmed buffer payload) inbox

  -- Of an output report or another, with an identifier and data that may be NULL.
  unfoldable pub codex_report_written : Bool → ℕ → Option (List ℕ) → Inbox → Inbox
  codex_report_written is_output report_id none inbox = inbox
  codex_report_written is_output report_id (some report) inbox =
      let written = take_payload (payload_of_report report) inbox in
      if not is_output || report_id != codex_report_id then inbox else written
