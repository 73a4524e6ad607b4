-- ===== src/Protocol/Codec/Corruption.antt =====
-- A frame with one corrupted byte is never accepted.
use esp32_monitor.Base.{
  ℕ, suc, ◌+◌, ◌-◌, ◌≤◌, ◌<◌, ◌≡◌, ◌≢◌, refl, sym, ap, ◌∙◌, arith, some, List, ◌∷◌, ◌++◌, length,
  take, get_or, get_or-append, get_or-All, get_or_around, All-middle, take_before, take_around,
  length-append, IsBytes,
}
use native.Mathlib.Decide.{dec_lt}
use esp32_monitor.Protocol.{ok, Frame, header_size, read_u16_le}
use esp32_monitor.Protocol.Crc.{crc16, crc_bytes}
use esp32_monitor.Protocol.Crc.Detection.{crc_bytes-detects}
use esp32_monitor.Protocol.Codec.{decode}
use esp32_monitor.Protocol.Codec.Wire.{read_u16_le_digits}
use esp32_monitor.Protocol.Codec.Inverse.{Accepts, decode_into-Accepts_inv}

module _ (before after : List ℕ) (x y : ℕ) (xs_bytes : IsBytes (before ++ x ∷ after))
    (ys_bytes : IsBytes (before ++ y ∷ after)) (hx : Accepts (before ++ x ∷ after))
    (hy : Accepts (before ++ y ∷ after)) where
  abbrev xs : List ℕ
  xs = before ++ x ∷ after

  abbrev ys : List ℕ
  ys = before ++ y ∷ after

  -- Where the checksum of xs stands.
  abbrev cut : ℕ
  cut = header_size + read_u16_le xs 8

  same_length : length xs ≡ length ys
  same_length =
      omega (arith, length-append {0} before (x ∷ after), length-append {0} before (y ∷ after))

  same_cut : read_u16_le xs 8 ≡ read_u16_le ys 8
  same_cut = omega (arith, same_length, hx.exact, hy.exact)

  x_byte : x < 256
  x_byte = All-middle (λ (b : ℕ). b < 256) before after x xs_bytes

  y_byte : y < 256
  y_byte = All-middle (λ (b : ℕ). b < 256) before after y ys_bytes

  crc_of : (zs : List ℕ) (k : ℕ) → crc16 (some zs) k ≡ crc_bytes 0xFFFF (take k zs)
  crc_of zs k = unfold crc16 in refl

  checked_y : crc16 (some ys) cut ≡ read_u16_le ys cut
  checked_y =
      ap (λ (n : ℕ). crc16 (some ys) (header_size + n)) same_cut
      ∙ hy.checked
      ∙ ap (λ (n : ℕ). read_u16_le ys (header_size + n)) (sym same_cut)

  -- A change before the checksum changes what it should be.
  in_body : length before < cut → x ≡ y
  in_body h =
      let m = cut - suc (length before) in
      let at : cut ≡ length before + suc m = omega arith in
      crc_bytes-detects 0xFFFF before (take m after) x y (omega arith) x_byte y_byte (
        ap (crc_bytes 0xFFFF) (sym (take_around cut m before after x at))
        ∙ sym (crc_of xs cut)
        ∙ hx.checked
        ∙ same_trailer
        ∙ sym checked_y
        ∙ crc_of ys cut
        ∙ ap (crc_bytes 0xFFFF) (take_around cut m before after y at))
    where
      same_trailer : read_u16_le xs cut ≡ read_u16_le ys cut
      same_trailer =
          unfold read_u16_le in
          rw (
            get_or_around cut before after x y 0 (λ e. omega arith),
            get_or_around (suc cut) before after x y 0 (λ e. omega arith),
          )

  byte_of : (zs : List ℕ) (j : ℕ) → IsBytes zs → get_or zs j 0 < 256
  byte_of zs j p = get_or-All (λ (b : ℕ). b < 256) zs j 0 p (omega arith)

  same_digits :
      read_u16_le xs cut ≡ read_u16_le ys cut
      → (get_or xs cut 0 ≡ get_or ys cut 0) × (get_or xs (suc cut) 0 ≡ get_or ys (suc cut) 0)
  same_digits e = omega (
    arith,
    read_u16_le_digits xs cut (byte_of xs cut xs_bytes) (byte_of xs (suc cut) xs_bytes),
    read_u16_le_digits ys cut (byte_of ys cut ys_bytes) (byte_of ys (suc cut) ys_bytes),
    byte_of xs cut xs_bytes,
    byte_of ys cut ys_bytes,
  )

  same_word : cut ≤ length before → read_u16_le xs cut ≡ read_u16_le ys cut
  same_word h =
      sym hx.checked
      ∙ crc_of xs cut
      ∙ ap (crc_bytes 0xFFFF)
          (take_before cut before (x ∷ after) h ∙ sym (take_before cut before (y ∷ after) h))
      ∙ sym (crc_of ys cut)
      ∙ checked_y

  at_place : (j : ℕ) → j ≡ length before → get_or xs j 0 ≡ get_or ys j 0 → x ≡ y
  at_place j e same =
      sym (get_or-append before (x ∷ after) 0 j 0 (omega arith))
      ∙ same
      ∙ get_or-append before (y ∷ after) 0 j 0 (omega arith)

  -- A change of the checksum itself is seen directly.
  in_trailer : cut ≤ length before → x ≡ y
  in_trailer h =
      let same = same_digits (same_word h) in
      elim (dec_lt cut (length before)) [
        | yes second ↦
            at_place (suc cut) (omega (arith, hx.exact, length-append {0} before (x ∷ after)))
              same.1
        | no first ↦ at_place cut (omega arith) same.0
      ]

-- Changing one byte of an accepted input, whichever it is, makes it one that is not accepted.
pub decode_corrupted :
    (before after : List ℕ) (x y : ℕ) (frame frame' : Frame)
    → IsBytes (before ++ x ∷ after)
    → IsBytes (before ++ y ∷ after)
    → x ≢ y
    → (decode (some (before ++ x ∷ after)) (some frame)).0 ≡ ok
    → (decode (some (before ++ y ∷ after)) (some frame')).0 ≢ ok
unfolding decode
decode_corrupted before after x y frame frame' p q ne hx hy =
    let ax = decode_into-Accepts_inv (before ++ x ∷ after) frame hx in
    let ay = decode_into-Accepts_inv (before ++ y ∷ after) frame' hy in
    elim (dec_lt (length before) (header_size + read_u16_le (before ++ x ∷ after) 8)) [
      | yes inside ↦ ne (in_body before after x y p q ax ay inside)
      | no outside ↦ ne (in_trailer before after x y p q ax ay (omega arith))
    ]
