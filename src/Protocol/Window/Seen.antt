-- ===== src/Protocol/Window/Seen.antt =====
-- The sequence window as a set of numbers: which ones its bitmap marks, and how a call changes it.
use esp32_monitor.Base.{
  ℕ, zero, suc, ◌-◌, ◌^◌, ◌≤◌, ◌<◌, ◌≡◌, ◌≢◌, refl, ap, arith, Bool, true, false, ◌&&◌, ◌||◌, ltb,
  leb, ◌==◌, ◌!=◌, if◌then◌else◌, sub_u16, u32, ◌<<◌, bit_and, bit_or, bit, bit_below, bit-bit_or,
  bit-mod, bit-shift, bit-shift_low, bit-power_self, bit-zero, bit-power_ne, bit_and_power,
  Bool-cases, inl, inr,
}
use native.Mathlib.Nat.{one-le-pow, one-mul}
use native.Mathlib.Decide.{dec_lt}
use esp32_monitor.Protocol.Window.{
  SequenceResult, accepted, duplicate, too_old, SequenceWindow, accept_more,
}

-- The bits after `bitmap << forward | 1`, and after `bitmap |= 1 << age`.
shifted_bit :
    (bitmap forward j : ℕ)
    → 0 < forward
    → j < 32
    → bit (bit_or (u32 (bitmap << forward)) 1) j
      ≡ (if j == 0 then 1 else if ltb j forward then 0 else bit bitmap (j - forward))
shifted_bit bitmap forward zero p q =
    ground (arith, bit-bit_or (u32 (bitmap << forward)) 1 0, bit_below (u32 (bitmap << forward)) 0)
shifted_bit bitmap forward (suc j) p q = ground (
  arith,
  bit-bit_or (u32 (bitmap << forward)) 1 (suc j),
  bit-mod 32 (bitmap << forward) (suc j),
  bit-zero j,
  bit-shift bitmap forward (suc j - forward) (suc j),
  bit-shift_low bitmap forward (suc j),
)

marked_bit :
    (bitmap age j : ℕ) → bit (bit_or bitmap (1 << age)) j ≡ (if j == age then 1 else bit bitmap j)
marked_bit bitmap age j = ground (
  arith,
  bit-bit_or bitmap (1 << age) j,
  ap (λ (m : ℕ). bit m j) (one-mul (2 ^ age)),
  bit-power_ne age j,
  bit-power_self age,
  bit_below bitmap j,
)

tested_bit : (bitmap age : ℕ) → (bit_and bitmap (1 << age) != 0) ≡ (bit bitmap age == 1)
tested_bit bitmap age =
    ground (arith, bit_and_power bitmap age, bit_below bitmap age, one-le-pow age 2)

-- How far a number lies behind the newest one.
abbrev pub age : SequenceWindow → ℕ → ℕ
age window sequence = sub_u16 window.newest_sequence sequence

-- The numbers that a window marks: at most 31 behind the newest, with their bit set.
unfoldable pub seen : SequenceWindow → ℕ → Bool
seen window sequence =
    ltb (age window sequence) 32 && bit window.seen_bitmap (age window sequence) == 1

-- Only numbers at most 31 behind are marked.
seen_young :
    (window : SequenceWindow) (sequence : ℕ)
    → seen window sequence ≡ true
    → age window sequence < 32
unfolding seen
seen_young window sequence h = ground arith

pub record IsWindow (window : SequenceWindow) : Type 0 where
  pub word : window.newest_sequence < 2 ^ 16
  pub newest_seen : bit window.seen_bitmap 0 ≡ 1

-- The answer that the set of marked numbers calls for. A number ahead of the newest one by less
-- than half of the number space is new; one behind it by 32 or more is too old; else the marks tell.
abbrev pub answer : SequenceWindow → ℕ → SequenceResult
answer window sequence =
    let forward = sub_u16 sequence window.newest_sequence in
    if ltb 0 forward && ltb forward (2 ^ 15)
    then accepted
    else if leb 32 (age window sequence)
    then too_old
    else if seen window sequence
    then duplicate
    else accepted

abbrev pub is_accepted : SequenceResult → Bool
is_accepted accepted = true
is_accepted _ = false

pub accept_more-answer :
    (window : SequenceWindow) (sequence : ℕ)
    → IsWindow window
    → sequence < 2 ^ 16
    → (accept_more window sequence).1 ≡ answer window sequence
unfolding accept_more seen
accept_more-answer window sequence w p =
    ground (arith, tested_bit window.seen_bitmap (age window sequence))

pub accept_more-IsWindow :
    (window : SequenceWindow) (sequence : ℕ)
    → IsWindow window
    → sequence < 2 ^ 16
    → IsWindow (accept_more window sequence).0
unfolding accept_more
accept_more-IsWindow window sequence w p = ground (
  arith,
  marked_bit window.seen_bitmap (age window sequence) 0,
  shifted_bit window.seen_bitmap (sub_u16 sequence window.newest_sequence) 0,
)

-- The marks after a call, in its three ways of changing the window.
module _ (window : SequenceWindow) (sequence other : ℕ) (w : IsWindow window)
    (p : sequence < 2 ^ 16) (q : other < 2 ^ 16) where
  abbrev forward : ℕ
  forward = sub_u16 sequence window.newest_sequence

  seen_far :
      32 ≤ forward
      → forward < 2 ^ 15
      → seen (record window { seen_bitmap = 1; newest_sequence = sequence }) other
        ≡ (other == sequence || seen window other && ltb (sub_u16 sequence other) 32)
  unfolding seen
  seen_far h k = ground (arith, bit-power_ne 0 (sub_u16 sequence other))

  seen_near :
      0 < forward
      → forward < 32
      → seen
          (record window {
            seen_bitmap = bit_or (u32 (window.seen_bitmap << forward)) 1;
            newest_sequence = sequence;
          })
          other
        ≡ (other == sequence || seen window other && ltb (sub_u16 sequence other) 32)
  unfolding seen
  seen_near h k = ground (arith, shifted_bit window.seen_bitmap forward (sub_u16 sequence other))

  seen_late :
      forward ≢ 0
      → seen
          (record window { seen_bitmap = bit_or window.seen_bitmap (1 << age window sequence) })
          other
        ≡ (other == sequence && ltb (age window sequence) 32 || seen window other)
  unfolding seen
  seen_late h =
      ground (arith, marked_bit window.seen_bitmap (age window sequence) (age window other))

  -- The four outcomes of a call.
  abbrev Marks : SequenceWindow × SequenceResult → Type 0
  Marks (after, result) =
      seen after other
      ≡ (other == sequence && is_accepted result || seen window other && ltb (age after other) 32)

  far_Marks : 32 ≤ forward → forward < 2 ^ 15 → Marks (accept_more window sequence)
  unfolding accept_more
  far_Marks h k =
      let step : accept_more window sequence
          ≡ (record window { seen_bitmap = 1; newest_sequence = sequence }, accepted) =
        ground arith in
      rw step (ground (arith, seen_far h k))

  near_Marks : 0 < forward → forward < 32 → Marks (accept_more window sequence)
  unfolding accept_more
  near_Marks h k =
      let step : accept_more window sequence ≡ (
        record window {
          seen_bitmap = bit_or (u32 (window.seen_bitmap << forward)) 1;
          newest_sequence = sequence;
        },
        accepted,
      ) =
        ground arith in
      rw step (ground (arith, seen_near h k))

  late_Marks :
      2 ^ 15 ≤ forward
      → age window sequence < 32
      → (bit_and window.seen_bitmap (1 << age window sequence) != 0) ≡ false
      → Marks (accept_more window sequence)
  unfolding accept_more
  late_Marks h k unset =
      let step : accept_more window sequence ≡ (
        record window { seen_bitmap = bit_or window.seen_bitmap (1 << age window sequence) },
        accepted,
      ) =
        ground arith in
      rw step (ground (arith, seen_late (omega arith), seen_young window other))

  -- A call that refuses changes nothing.
  kept_Marks :
      (result : SequenceResult)
      → is_accepted result ≡ false
      → accept_more window sequence ≡ (window, result)
      → Marks (accept_more window sequence)
  kept_Marks result refused step = rw step (ground (arith, seen_young window other))

  behind_Marks : 2 ^ 15 ≤ forward → Marks (accept_more window sequence)
  behind_Marks h = elim (dec_lt (age window sequence) 32) [
    | no old ↦ kept_Marks too_old refl (unfold accept_more in ground arith)
    | yes young ↦ elim (Bool-cases (bit_and window.seen_bitmap (1 << age window sequence) != 0)) [
      | inl marked ↦ kept_Marks duplicate refl (unfold accept_more in ground arith)
      | inr unset ↦ late_Marks h young unset
    ]
  ]

  same_Marks : forward ≡ 0 → Marks (accept_more window sequence)
  unfolding accept_more
  same_Marks h = ground (arith, seen_young window other)

-- After a call the marked numbers are those that were marked and are still within 31 of the
-- newest, and the number itself if it was accepted.
pub accept_more-seen :
    (window : SequenceWindow) (sequence other : ℕ)
    → IsWindow window
    → sequence < 2 ^ 16
    → other < 2 ^ 16
    → seen (accept_more window sequence).0 other ≡ (
        other == sequence && is_accepted (accept_more window sequence).1
        || seen window other && ltb (age (accept_more window sequence).0 other) 32)
accept_more-seen window sequence other w p q =
    let f = sub_u16 sequence window.newest_sequence in
    elim (dec_lt f (2 ^ 15)) [
      | no behind ↦ behind_Marks window sequence other w p q (omega arith)
      | yes ahead ↦ elim (dec_lt f 32) [
        | no far ↦ far_Marks window sequence other w p q (omega arith) ahead
        | yes near ↦ elim (dec_lt 0 f) [
          | no same ↦ same_Marks window sequence other w p q (omega arith)
          | yes new ↦ near_Marks window sequence other w p q new near
        ]
      ]
    ]
