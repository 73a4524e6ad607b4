-- ===== src/AppAuth/Compare.antt =====
-- constant_time_equal is the equality of bytes.
use Prim.Native.Nat.{differ}
use native.Mathlib.Nat.{pow-suc}
use esp32_monitor.Base.{
  ℕ, zero, suc, ◌^◌, ◌%◌, ◌/◌, ◌<◌, ◌≡◌, ◌↔◌, refl, sym, ap, ap₂, ◌∙◌, arith, Bool, true, List, ◌∷◌,
  gets, get_or, drop, bit_or, bit_xor, u8, ◌==◌, IsBytes, get_or-All, eq→==, ==→eq, bit_or_lowest,
  bit_xor_parts, bit_xor-lt,
}

-- The rounds that are left, from index i on, with the difference so far.
unfoldable pub differences : List ℕ → List ℕ → ℕ → ℕ → ℕ → ℕ
differences left right zero i difference = difference
differences left right (suc rounds) i difference =
    differences left right rounds (suc i)
      (u8 (bit_or difference (bit_xor (get_or left i 0) (get_or right i 0))))

unfoldable pub constant_time_equal : List ℕ → List ℕ → ℕ → Bool
constant_time_equal left right length = differences left right length 0 0 == 0

-- A union of words is one, and it is 0 exactly where both are.
bit_or-lt : (k a b : ℕ) → a < 2 ^ k → b < 2 ^ k → bit_or a b < 2 ^ k
bit_or-lt zero a b p q =
    let a0 : a ≡ 0 = omega arith in let b0 : b ≡ 0 = omega arith in rw (a0, b0) (omega arith)
bit_or-lt (suc k) a b p q = ground (
  arith,
  pow-suc 2 k,
  bit_or_lowest a b,
  bit_or-lt k (a / 2) (b / 2) (omega (arith, pow-suc 2 k)) (omega (arith, pow-suc 2 k)),
)

bit_or-zero : (k a b : ℕ) → a < 2 ^ k → b < 2 ^ k → bit_or a b ≡ 0 → (a ≡ 0) × (b ≡ 0)
bit_or-zero zero a b p q e = omega arith
bit_or-zero (suc k) a b p q e =
    let halves =
      bit_or-zero k (a / 2) (b / 2) (omega (arith, pow-suc 2 k)) (omega (arith, pow-suc 2 k))
        (omega (arith, e, bit_or_lowest a b)) in
    omega (arith, e, bit_or_lowest a b, halves)

-- Two digits differ in 0 exactly where they are the same.
differ-zero : (x y : ℕ) → x < 2 → y < 2 → (differ x y ≡ 0) ↔ (x ≡ y)
differ-zero zero zero p q = (λ _. refl, λ _. refl)
differ-zero zero (suc zero) p q = (λ e. omega arith, λ e. omega arith)
differ-zero (suc zero) zero p q = (λ e. omega arith, λ e. omega arith)
differ-zero (suc zero) (suc zero) p q = (λ _. refl, λ _. refl)
differ-zero (suc (suc x)) y p q = absurd (omega arith)
differ-zero zero (suc (suc y)) p q = absurd (omega arith)
differ-zero (suc zero) (suc (suc y)) p q = absurd (omega arith)

bit_xor-zero : (k a b : ℕ) → a < 2 ^ k → b < 2 ^ k → bit_xor a b ≡ 0 → a ≡ b
bit_xor-zero zero a b p q e = omega arith
bit_xor-zero (suc k) a b p q e =
    let halves =
      bit_xor-zero k (a / 2) (b / 2) (omega (arith, pow-suc 2 k)) (omega (arith, pow-suc 2 k))
        (omega (arith, e, bit_xor_parts a b)) in
    let digit : differ (a % 2) (b % 2) ≡ 0 = omega (arith, e, bit_xor_parts a b) in
    omega (arith, (differ-zero (a % 2) (b % 2) (omega arith) (omega arith)).0 digit, halves)

bit_xor_self : (k a : ℕ) → a < 2 ^ k → bit_xor a a ≡ 0
bit_xor_self zero a p = let a0 : a ≡ 0 = omega arith in rw a0 refl
bit_xor_self (suc k) a p =
    let half = bit_xor_self k (a / 2) (omega (arith, pow-suc 2 k)) in
    omega (
      arith,
      bit_xor_parts a a,
      (differ-zero (a % 2) (a % 2) (omega arith) (omega arith)).1 refl,
      half,
    )

module _ (left right : List ℕ) (l : IsBytes left) (r : IsBytes right) where
  byte_left : (i : ℕ) → get_or left i 0 < 256
  byte_left i = get_or-All (λ x. x < 256) left i 0 l (omega arith)

  byte_right : (i : ℕ) → get_or right i 0 < 256
  byte_right i = get_or-All (λ x. x < 256) right i 0 r (omega arith)

  -- No difference at the end means none before, and the same bytes from there on.
  no_differences :
      (rounds i difference : ℕ)
      → difference < 256
      → differences left right rounds i difference ≡ 0
      → (difference ≡ 0) × (gets rounds i left 0 ≡ gets rounds i right 0)
  unfolding differences
  no_differences zero i difference h e = (e, refl)
  no_differences (suc rounds) i difference h e =
      let x = get_or left i 0 in
      let y = get_or right i 0 in
      let z = bit_xor-lt 8 x y (byte_left i) (byte_right i) in
      let d = bit_or-lt 8 difference (bit_xor x y) h z in
      let (same, rest) =
        no_differences rounds (suc i) (u8 (bit_or difference (bit_xor x y))) (omega arith) e in
      let (none_yet, none_now) =
        bit_or-zero 8 difference (bit_xor x y) h z (omega (arith, same, d)) in
      (
        none_yet,
        ap₂ (λ (b : ℕ) bs. b ∷ bs) (bit_xor-zero 8 x y (byte_left i) (byte_right i) none_now) rest,
      )

  same_bytes :
      (rounds i : ℕ)
      → gets rounds i left 0 ≡ gets rounds i right 0
      → differences left right rounds i 0 ≡ 0
  unfolding differences
  same_bytes zero i e = refl
  same_bytes (suc rounds) i e =
      let x = get_or left i 0 in
      let first : x ≡ get_or right i 0 = ap (λ bs. get_or bs 0 0) e in
      let none_now : bit_xor x (get_or right i 0) ≡ 0 =
        ap (bit_xor x) (sym first) ∙ bit_xor_self 8 x (byte_left i) in
      rw none_now (same_bytes rounds (suc i) (ap (drop 1) e))

  -- The comparison of `length` bytes is true exactly where they are the same.
  pub constant_time_equal-gets :
      (length : ℕ)
      → (constant_time_equal left right length ≡ true)
        ↔ (gets length 0 left 0 ≡ gets length 0 right 0)
  unfolding constant_time_equal
  constant_time_equal-gets length = (
    λ e.
        (no_differences length 0 0 (omega arith) (==→eq (differences left right length 0 0) 0 e)).1,
    λ e. eq→== (differences left right length 0 0) 0 (same_bytes length 0 e),
  )
