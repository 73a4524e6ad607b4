-- ===== src/Storage/Normal.antt =====
-- What desk_log_normalize_message and desk_log_should_rotate promise.
use esp32_monitor.Base.{
  ℕ, zero, suc, ◌+◌, ◌-◌, ◌≤◌, ◌<◌, ◌≡◌, ◌↔◌, ◌⊎◌, refl, ap₂, arith, true, false, Option, none,
  some, List, [], ◌∷◌, ltb, if_cases, if◌then◌else◌, length, length-take, take, All,
}
use esp32_monitor.Storage.LogPolicy.{
  ContentClass, content_public, content_private, marker, is_control, normal_byte, normalize_bytes,
  normalize_message, should_rotate,
}

-- Short enough for its buffer with the terminator, without control characters, and the same when it
-- is normalized again.
pub record IsNormal (capacity : ℕ) (output : List ℕ) : Type 0 where
  pub short : length output < capacity
  pub printable : All (λ (byte : ℕ). is_control byte ≡ false) output
  pub stable : normalize_message content_public (some output) capacity ≡ output

normal_byte-normal : (byte : ℕ) → is_control (normal_byte byte) ≡ false
normal_byte-normal byte =
    if_cases (λ (b : ℕ). is_control b ≡ false) (is_control byte) (λ e. refl) (λ e. e)

normal_byte_same : (byte : ℕ) → is_control byte ≡ false → normal_byte byte ≡ byte
normal_byte_same byte h =
    if_cases (λ (b : ℕ). b ≡ byte) (is_control byte) (λ e. absurd (ground (arith, e, h)))
      (λ e. refl)

normalize_bytes-length : (room : ℕ) (input : List ℕ) → length (normalize_bytes room input) ≤ room
unfolding normalize_bytes
normalize_bytes-length zero input = omega arith
normalize_bytes-length (suc room) [] = omega arith
normalize_bytes-length (suc room) (b ∷ input) = omega (arith, normalize_bytes-length room input)

normalize_bytes-printable :
    (room : ℕ) (input : List ℕ)
    → All (λ (byte : ℕ). is_control byte ≡ false) (normalize_bytes room input)
unfolding normalize_bytes
normalize_bytes-printable zero input = tt
normalize_bytes-printable (suc room) [] = tt
normalize_bytes-printable (suc room) (b ∷ input) =
    (normal_byte-normal b, normalize_bytes-printable room input)

normalize_bytes_printable_same :
    (room : ℕ) (input : List ℕ)
    → length input ≤ room
    → All (λ (byte : ℕ). is_control byte ≡ false) input
    → normalize_bytes room input ≡ input
unfolding normalize_bytes
normalize_bytes_printable_same zero [] h p = refl
normalize_bytes_printable_same zero (b ∷ input) h p = absurd (omega arith)
normalize_bytes_printable_same (suc room) [] h p = refl
normalize_bytes_printable_same (suc room) (b ∷ input) h p =
    ap₂ (λ (x : ℕ) xs. x ∷ xs) (normal_byte_same b p.0)
      (normalize_bytes_printable_same room input (omega arith) p.1)

printable-IsNormal :
    (capacity : ℕ) (output : List ℕ)
    → length output < capacity
    → All (λ (byte : ℕ). is_control byte ≡ false) output
    → IsNormal capacity output
unfolding normalize_message
printable-IsNormal capacity output h p = record {
  short = h;
  printable = p;
  stable = normalize_bytes_printable_same (capacity - 1) output (omega arith) p;
}

take-All : (P : ℕ → Type 0) (n : ℕ) (xs : List ℕ) → All P xs → All P (take n xs)
take-All P zero xs h = tt
take-All P (suc n) [] h = tt
take-All P (suc n) (x ∷ xs) h = (h.0, take-All P n xs h.1)

marker_printable : All (λ (byte : ℕ). is_control byte ≡ false) marker
unfolding normalize_bytes
marker_printable = normalize_bytes-printable 23 marker

-- Whatever the class and the input, the output of a buffer of at least one byte fits it, has no
-- control characters, and stays as it is when it is normalized again; and for a private entry it is
-- the same whatever the input.
pub normalize_message-IsNormal :
    (class : ContentClass) (input input' : Option (List ℕ)) (capacity : ℕ)
    → 1 ≤ capacity
    → IsNormal capacity (normalize_message class input capacity)
      × (class ≡ content_private
          → normalize_message class input capacity ≡ normalize_message class input' capacity)
unfolding normalize_message
normalize_message-IsNormal content_private input input' capacity h =
    let P : ℕ → Type 0 = λ n. length (take n marker) < capacity in
    let fits : P (if ltb (length marker) (capacity - 1) then length marker else capacity - 1) =
      if_cases P (ltb (length marker) (capacity - 1))
        (λ e. ground (arith, e, length-take 23 marker))
        (λ e. ground (arith, e, h, length-take (capacity - 1) marker)) in
    (
      printable-IsNormal capacity _ fits
          (take-All (λ (byte : ℕ). is_control byte ≡ false) _ marker marker_printable),
      λ e. refl,
    )
normalize_message-IsNormal content_public none input' capacity h =
    (printable-IsNormal capacity [] (omega arith) tt, λ e. absurd (ground (arith, e)))
normalize_message-IsNormal content_public (some input) input' capacity h = (
  printable-IsNormal capacity (normalize_bytes (capacity - 1) input)
      (omega (arith, normalize_bytes-length (capacity - 1) input))
      (normalize_bytes-printable (capacity - 1) input),
  λ e. absurd (ground (arith, e)),
)

-- The file is rotated exactly where its bytes and the pending ones reach the limit, and always
-- where the limit is 0.
pub should_rotate-sum :
    (current_bytes pending_bytes max_bytes : ℕ)
    → (should_rotate current_bytes pending_bytes max_bytes ≡ true)
      ↔ ((max_bytes ≡ 0) ⊎ (max_bytes ≤ current_bytes + pending_bytes))
unfolding should_rotate
should_rotate-sum current_bytes pending_bytes max_bytes = ground arith
