-- ===== src/Protocol/Window/Replay.antt =====
-- A sequence number that was accepted is not accepted again while the newest number has moved by
-- less than half of the number space.
use esp32_monitor.Base.{
  ℕ, ◌+◌, ◌-◌, ◌^◌, ◌<◌, ◌≡◌, ◌≢◌, refl, ◌∙◌, arith, true, false, ◌&&◌, ltb, if◌then◌else◌, sub_u16,
  u16, List, [], ◌∷◌, All, Bool-cases, inl, inr,
}
use native.Mathlib.Nat.{add-zero, add_assoc}
use esp32_monitor.Protocol.Window.{accepted, SequenceWindow, accept_more, accept_at}
use esp32_monitor.Protocol.Window.Seen.{
  seen, IsWindow, accept_more-answer, accept_more-IsWindow, accept_more-seen,
}

-- The windows of a session: the numbers of one peer, oldest first.
pub run : SequenceWindow → List ℕ → SequenceWindow
run window [] = window
run window (sequence ∷ rest) = run (accept_at window sequence).0 rest

-- How far a call moves the newest number.
abbrev advance : SequenceWindow → ℕ → ℕ
advance window sequence =
    sub_u16 (accept_at window sequence).0.newest_sequence window.newest_sequence

unfoldable pub total_advance : SequenceWindow → List ℕ → ℕ
total_advance window [] = 0
total_advance window (sequence ∷ rest) =
    advance window sequence + total_advance (accept_at window sequence).0 rest

-- `sequence` was accepted, and the newest number has moved `moved` beyond it since.
record IsTracked (window : SequenceWindow) (sequence moved : ℕ) : Type 0 where
  valid : IsWindow window
  started : window.initialized ≡ true
  near : moved < 2 ^ 15
  distance : window.newest_sequence ≡ u16 (sequence + moved)
  marked : moved < 32 → seen window sequence ≡ true

accept_more-newest :
    (window : SequenceWindow) (sequence : ℕ)
    → let f = sub_u16 sequence window.newest_sequence in
      ((accept_more window sequence).0.newest_sequence
        ≡ (if ltb 0 f && ltb f (2 ^ 15) then sequence else window.newest_sequence))
      × ((accept_more window sequence).0.initialized ≡ window.initialized)
unfolding accept_more
accept_more-newest window sequence = ground arith

accept_at-on :
    (window : SequenceWindow) (next : ℕ)
    → window.initialized ≡ true
    → accept_at window next ≡ accept_more window next
unfolding accept_at
accept_at-on window next on = ground arith

accept_at-off :
    (window : SequenceWindow) (next : ℕ)
    → window.initialized ≡ false
    → accept_at window next
      ≡ (record { newest_sequence = next; seen_bitmap = 1; initialized = true }, accepted)
unfolding accept_at
accept_at-off window next off = ground arith

module _ (window : SequenceWindow) (sequence next moved : ℕ) (p : sequence < 2 ^ 16)
    (q : next < 2 ^ 16) (t : IsTracked window sequence moved) where
  IsTracked-next :
      moved + sub_u16 (accept_more window next).0.newest_sequence window.newest_sequence < 2 ^ 15
      → IsTracked
          (accept_more window next).0
          sequence
          (moved + sub_u16 (accept_more window next).0.newest_sequence window.newest_sequence)
  IsTracked-next h = record {
    valid = accept_more-IsWindow window next t.valid q;
    started = (accept_more-newest window next).1 ∙ t.started;
    near = h;
    distance = ground (arith, accept_more-newest window next, t.valid.word, t.distance);
    marked = λ young. ground (
      arith,
      accept_more-newest window next,
      t.valid.word,
      t.distance,
      t.marked,
      accept_more-seen window next sequence t.valid q p,
    );
  }

IsTracked-refused :
    (window : SequenceWindow) (sequence moved : ℕ)
    → sequence < 2 ^ 16
    → IsTracked window sequence moved
    → (accept_at window sequence).1 ≢ accepted
unfolding accept_at
IsTracked-refused window sequence moved p t = ground (
  arith,
  accept_more-answer window sequence t.valid p,
  t.marked,
  t.valid.word,
  t.distance,
  t.started,
)

-- A window that has seen no number yet, or holds what IsWindow says.
abbrev pub IsSessionWindow : SequenceWindow → Type 0
IsSessionWindow window = window.initialized ≡ true → IsWindow window

module _ (window : SequenceWindow) (sequence : ℕ) (p : sequence < 2 ^ 16) where
  first_IsTracked :
      IsTracked
        (record { newest_sequence = sequence; seen_bitmap = 1; initialized = true })
        sequence
        0
  first_IsTracked = record {
    valid = record { word = p; newest_seen = refl };
    started = refl;
    near = omega arith;
    distance = omega arith;
    marked = λ _. unfold seen in ground arith;
  }

  accepted_IsTracked :
      IsWindow window
      → window.initialized ≡ true
      → (accept_more window sequence).1 ≡ accepted
      → let moved = sub_u16 (accept_more window sequence).0.newest_sequence sequence in
        (moved < 32) × IsTracked (accept_more window sequence).0 sequence moved
  accepted_IsTracked w on h =
      let rule = accept_more-answer window sequence w p in
      let newest = accept_more-newest window sequence in
      let marks = accept_more-seen window sequence sequence w p p in
      let valid = accept_more-IsWindow window sequence w p in
      let few : sub_u16 (accept_more window sequence).0.newest_sequence sequence < 32 =
        ground (arith, rule, newest, w.word) in
      (
        few,
        record {
          valid = valid;
          started = newest.1 ∙ on;
          near = omega arith;
          distance = omega (arith, valid.word);
          marked = λ _. ground (arith, marks);
        },
      )

  accept_at-IsTracked :
      IsSessionWindow window
      → (accept_at window sequence).1 ≡ accepted
      → (moved : ℕ) × (moved < 32) × IsTracked (accept_at window sequence).0 sequence moved
  accept_at-IsTracked w h = elim (Bool-cases window.initialized) [
    | inl on ↦
        let step = accept_at-on window sequence on in
        let t = accepted_IsTracked (w on) on (rw step at h) in
        rw step (sub_u16 (accept_more window sequence).0.newest_sequence sequence, t.0, t.1)
    | inr off ↦ rw (accept_at-off window sequence off) (0, omega arith, first_IsTracked)
  ]

run-IsTracked :
    (window : SequenceWindow) (sequence moved : ℕ) (rest : List ℕ)
    → sequence < 2 ^ 16
    → All (λ next. next < 2 ^ 16) rest
    → IsTracked window sequence moved
    → moved + total_advance window rest < 2 ^ 15
    → IsTracked (run window rest) sequence (moved + total_advance window rest)
unfolding run total_advance
run-IsTracked window sequence moved [] p words t h = rw add-zero t
run-IsTracked window sequence moved (next ∷ rest) p words t h =
    let step = accept_at-on window next t.started in
    let near : moved + advance window next < 2 ^ 15 = omega arith in
    let t' = IsTracked-next window sequence next moved p words.0 t (rw step at near) in
    rw (← add_assoc) (
      run-IsTracked (accept_at window next).0 sequence (moved + advance window next) rest p words.1
        (rw step t') (omega arith))

-- Within a session, once a number is accepted it is refused as long as the newest number has moved
-- by less than 2 ^ 15 - 31 since, whatever numbers came in between.
pub accept_once :
    (window : SequenceWindow) (sequence : ℕ) (rest : List ℕ)
    → sequence < 2 ^ 16
    → All (λ next. next < 2 ^ 16) rest
    → IsSessionWindow window
    → (accept_at window sequence).1 ≡ accepted
    → total_advance (accept_at window sequence).0 rest < 2 ^ 15 - 31
    → (accept_at (run (accept_at window sequence).0 rest) sequence).1 ≢ accepted
accept_once window sequence rest p words w first h =
    let (moved, few, t) = accept_at-IsTracked window sequence p w first in
    IsTracked-refused _ sequence _ p
      (run-IsTracked (accept_at window sequence).0 sequence moved rest p words t (omega arith))
