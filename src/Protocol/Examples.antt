-- ===== src/Protocol/Examples.antt =====
-- Frames and windows at concrete bytes, and the theorems of the protocol there.
use esp32_monitor.Base.{
  ℕ, ◌≡◌, ◌≢◌, ◌↔◌, refl, ap, arith, Option, some, true, List, [], ◌∷◌, ◌++◌, length, take, drop,
  replicate, ◌==◌, ◌&&◌, ◌||◌, ltb,
}
use esp32_monitor.Protocol.{Status, ok, Frame, write_u16_le, read_u16_le}
use esp32_monitor.Protocol.Crc.{crc16}
use esp32_monitor.Protocol.Codec.{encode, encode_into, write_frame, decode, decode_into}
use esp32_monitor.Protocol.Codec.Inverse.{IsFrame}
use esp32_monitor.Protocol.Codec.RoundTrip.{
  decode-encode, encode-decode, CanEncode, encode_outcomes,
}
use esp32_monitor.Protocol.Codec.Corruption.{decode_corrupted}
use esp32_monitor.Protocol.Window.{SequenceWindow, accepted, accept_more, accept_at}
use esp32_monitor.Protocol.Window.Seen.{
  IsWindow, answer, age, seen, is_accepted, accept_more-answer, accept_more-seen,
}
use esp32_monitor.Protocol.Window.Replay.{run, total_advance, accept_once}

abbrev heartbeat : Frame
heartbeat = record {
  flags = 4;
  message_type = 5;
  sequence = 0x1234;
  payload = some (0xA0 ∷ 0x0B ∷ []);
  payload_length = 2;
}

abbrev buffer : List ℕ
buffer = replicate 16 0

abbrev heartbeat_bytes : List ℕ
heartbeat_bytes = 0x44 ∷ 0x43 ∷ 1 ∷ 4 ∷ 5 ∷ 0 ∷ 0x34 ∷ 0x12 ∷ 2 ∷ 0 ∷ 0xA0 ∷ 0x0B ∷ 0xDF ∷ 0xFB ∷ []

encode_runs :
    encode (some heartbeat) (some buffer) (some 0)
    ≡ (ok, some (heartbeat_bytes ++ 0 ∷ 0 ∷ []), some 14)
unfolding encode encode_into write_frame write_u16_le crc16
encode_runs = refl

decode_runs : decode (some heartbeat_bytes) (some heartbeat) ≡ (ok, some heartbeat)
unfolding decode decode_into read_u16_le crc16
decode_runs = refl

heartbeat-IsFrame : IsFrame heartbeat
heartbeat-IsFrame = omega arith

decode-encode_example :
    (sent : List ℕ) × (length sent ≡ 14)
    × (encode (some heartbeat) (some buffer) (some 0)
        ≡ (ok, some (sent ++ drop 14 buffer), some 14))
    × (decode (some sent) (some heartbeat) ≡ (ok, some heartbeat))
decode-encode_example = decode-encode heartbeat heartbeat buffer 0 heartbeat-IsFrame (omega arith)

encode-decode_example :
    encode (some heartbeat) (some buffer) (some 0)
    ≡ (ok, some (heartbeat_bytes ++ drop 14 buffer), some 14)
encode-decode_example =
    encode-decode heartbeat_bytes buffer heartbeat heartbeat 0 (omega arith) decode_runs
      (omega arith)

encode_outcomes_example :
    (((encode (some heartbeat) (some buffer) (some 0)).0 ≡ ok)
      ↔ CanEncode (some heartbeat) (some buffer) (some 0))
    × ((encode (some heartbeat) (some buffer) (some 0)).0 ≢ ok
        → ((encode (some heartbeat) (some buffer) (some 0)).1 ≡ some buffer)
          × ((encode (some heartbeat) (some buffer) (some 0)).2 ≡ some 0))
encode_outcomes_example = encode_outcomes (some heartbeat) (some buffer) (some 0)

decode_corrupted_example :
    (decode (some (take 10 heartbeat_bytes ++ 0xA1 ∷ drop 11 heartbeat_bytes)) (some heartbeat)).0
    ≢ ok
decode_corrupted_example =
    decode_corrupted (take 10 heartbeat_bytes) (drop 11 heartbeat_bytes) 0xA0 0xA1 heartbeat
      heartbeat (omega arith) (omega arith) (λ e. omega arith)
      (ap (λ (r : Status × Option Frame). r.0) decode_runs)

-- A window at 3 that has seen 3 and 1.
abbrev window : SequenceWindow
window = record { newest_sequence = 3; seen_bitmap = 5; initialized = true }

window-IsWindow : IsWindow window
window-IsWindow = omega arith

accept_more-answer_example : (accept_more window 65530).1 ≡ answer window 65530
accept_more-answer_example = accept_more-answer window 65530 window-IsWindow (omega arith)

accept_more-seen_example : seen (accept_more window 2).0 1 ≡ (
    1 == 2 && is_accepted (accept_more window 2).1
    || seen window 1 && ltb (age (accept_more window 2).0 1) 32)
accept_more-seen_example = accept_more-seen window 2 1 window-IsWindow (omega arith) (omega arith)

accept_once_example : (accept_at (run (accept_at window 2).0 (4 ∷ 90 ∷ 7 ∷ [])) 2).1 ≢ accepted
unfolding accept_at accept_more total_advance
accept_once_example =
    accept_once window 2 (4 ∷ 90 ∷ 7 ∷ []) (omega arith) (omega arith) (λ _. window-IsWindow) refl
      (omega arith)
