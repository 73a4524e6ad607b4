-- ===== src/Protocol/Window.antt =====
-- desk_sequence_window_accept: which sequence numbers are taken as new.
pub mod Seen
pub mod Replay
use esp32_monitor.Base.{
  ℕ, bit_and, bit_or, Bool, true, false, not, Option, none, some, ◌&&◌, ltb, leb, ◌==◌, ◌!=◌,
  if◌then◌else◌, sub_u16, u32, ◌<<◌,
}
use esp32_monitor.Protocol.{sequence_window_size}

pub data SequenceResult : Type 0 where
  accepted duplicate too_old : SequenceResult

pub record SequenceWindow : Type 0 where
  pub newest_sequence : ℕ
  pub seen_bitmap : ℕ
  pub initialized : Bool

-- A window that is there and initialised.
unfoldable pub accept_more : SequenceWindow → ℕ → SequenceWindow × SequenceResult
accept_more window sequence =
    let forward = sub_u16 sequence window.newest_sequence in
    let age = sub_u16 window.newest_sequence sequence in
    if forward != 0 && ltb forward 0x8000
    then (
      record window {
        seen_bitmap =
            if leb sequence_window_size forward
            then 1
            else bit_or (u32 (window.seen_bitmap << forward)) 1;
        newest_sequence = sequence;
      },
      accepted,
    )
    else if forward == 0
    then (window, duplicate)
    else if leb sequence_window_size age
    then (window, too_old)
    else if bit_and window.seen_bitmap (1 << age) != 0
    then (window, duplicate)
    else (record window { seen_bitmap = bit_or window.seen_bitmap (1 << age) }, accepted)

-- A window that is there.
unfoldable pub accept_at : SequenceWindow → ℕ → SequenceWindow × SequenceResult
accept_at window sequence =
    if not window.initialized
    then (record { newest_sequence = sequence; seen_bitmap = 1; initialized = true }, accepted)
    else accept_more window sequence

unfoldable pub accept : Option SequenceWindow → ℕ → Option SequenceWindow × SequenceResult
accept none sequence = (none, too_old)
accept (some window) sequence =
    let (window', result) = accept_at window sequence in (some window', result)
