-- ===== src/Base/Bits.antt =====
-- What `&`, `|` and `^` do to the digits of a word.
use Prim.Native.Nat.{
  ℕ, zero, suc, ◌+◌, ◌-◌, ◌*◌, ◌/◌, ◌%◌, ◌^◌, ◌≤◌, ◌<◌, min, max, bit_and, bit_or, bit_xor, digits,
  differ, bitwise, bit_and-bitwise, bit_or-bitwise, bit_xor-bitwise,
}
use mathlib.Core.Path.{◌≡◌, refl, sym, ap, ◌∙◌}
use mathlib.Core.Logic.{◌≢◌}
use native.Mathlib.Nat.{pow-suc, one-le-pow}
use native.Mathlib.Omega.{arith}

-- The bit of weight 2 ^ i.
abbrev pub bit : ℕ → ℕ → ℕ
bit n zero = n % 2
bit n (suc i) = bit (n / 2) i

module _ (rest : ℕ → ℕ) (op : ℕ → ℕ → ℕ) where
  -- Any two amounts of fuel that cover the first number give the same digits.
  enough_digits : (m n a b : ℕ) → a ≤ m → a ≤ n → digits rest op m a b ≡ digits rest op n a b
  enough_digits zero zero a b p q = refl
  enough_digits zero (suc n) zero b p q = refl
  enough_digits (suc m) zero zero b p q = refl
  enough_digits (suc m) (suc n) zero b p q = refl
  enough_digits zero (suc n) (suc a) b p q = absurd (omega arith)
  enough_digits (suc m) zero (suc a) b p q = absurd (omega arith)
  enough_digits (suc m) (suc n) (suc a) b p q =
      ap (λ (d : ℕ). d * 2 + op (suc a % 2) (b % 2))
        (enough_digits m n (suc a / 2) (b / 2) (omega arith) (omega arith))

  bitwise_lowest :
      (a b : ℕ)
      → bitwise rest op (suc a) b ≡ bitwise rest op (suc a / 2) (b / 2) * 2 + op (suc a % 2) (b % 2)
  bitwise_lowest a b =
      ap (λ (d : ℕ). d * 2 + op (suc a % 2) (b % 2))
        (enough_digits a (suc a / 2) (suc a / 2) (b / 2) (omega arith) (omega arith))

pub bit_and_lowest : (a b : ℕ) → bit_and a b ≡ bit_and (a / 2) (b / 2) * 2 + min (a % 2) (b % 2)
bit_and_lowest zero b = omega (arith, bit_and-bitwise 0 b, bit_and-bitwise 0 (b / 2))
bit_and_lowest (suc a) b = simp (bit_and-bitwise) (bitwise_lowest (λ _. 0) min a b)

pub bit_or_lowest : (a b : ℕ) → bit_or a b ≡ bit_or (a / 2) (b / 2) * 2 + max (a % 2) (b % 2)
bit_or_lowest zero b = omega (arith, bit_or-bitwise 0 b, bit_or-bitwise 0 (b / 2))
bit_or_lowest (suc a) b = simp bit_or-bitwise (bitwise_lowest (λ y. y) max a b)

pub bit_xor_lowest : (a b : ℕ) → bit_xor a b ≡ bit_xor (a / 2) (b / 2) * 2 + differ (a % 2) (b % 2)
bit_xor_lowest zero b = simp bit_xor-bitwise (omega arith)
bit_xor_lowest (suc a) b = simp bit_xor-bitwise (bitwise_lowest (λ y. y) differ a b)

pub bit_below : (n i : ℕ) → bit n i < 2
bit_below n zero = omega arith
bit_below n (suc i) = bit_below (n / 2) i

-- Each digit of `|` and `&` is that of the operands.
pub bit-bit_or : (a b i : ℕ) → bit (bit_or a b) i ≡ max (bit a i) (bit b i)
bit-bit_or a b zero = omega (arith, bit_or_lowest a b)
bit-bit_or a b (suc i) =
    let half : bit_or a b / 2 ≡ bit_or (a / 2) (b / 2) = omega (arith, bit_or_lowest a b) in
    ap (λ (n : ℕ). bit n i) half ∙ bit-bit_or (a / 2) (b / 2) i

pub bit-bit_and : (a b i : ℕ) → bit (bit_and a b) i ≡ min (bit a i) (bit b i)
bit-bit_and a b zero = omega (arith, bit_and_lowest a b)
bit-bit_and a b (suc i) =
    let half : bit_and a b / 2 ≡ bit_and (a / 2) (b / 2) = omega (arith, bit_and_lowest a b) in
    ap (λ (n : ℕ). bit n i) half ∙ bit-bit_and (a / 2) (b / 2) i

pub bit_and-zero : (a : ℕ) → bit_and a 0 ≡ 0
bit_and-zero a = go a a (omega arith)
  where
    go : (n a : ℕ) → a ≤ n → bit_and a 0 ≡ 0
    go n zero h = refl
    go zero (suc a) h = absurd (omega arith)
    go (suc n) (suc a) h = omega (arith, bit_and_lowest (suc a) 0, go n (suc a / 2) (omega arith))

bit_or-zero : (a : ℕ) → bit_or a 0 ≡ a
bit_or-zero a = go a a (omega arith)
  where
    go : (n a : ℕ) → a ≤ n → bit_or a 0 ≡ a
    go n zero h = refl
    go zero (suc a) h = absurd (omega arith)
    go (suc n) (suc a) h = omega (arith, bit_or_lowest (suc a) 0, go n (suc a / 2) (omega arith))

two_pow_suc : (k q : ℕ) → q * 2 ^ suc k ≡ 2 * (q * 2 ^ k)
two_pow_suc k q = omega (arith, ap (λ (p : ℕ). q * p) (pow-suc 2 k))

-- `low | high << k` is a sum when `low` has k digits.
pub bit_or_shifted : (k low high : ℕ) → low < 2 ^ k → bit_or low (high * 2 ^ k) ≡ low + high * 2 ^ k
bit_or_shifted zero low high h =
    let e : low ≡ 0 = omega arith in rw e (omega (arith, bit_or-bitwise 0 (high * 2 ^ 0)))
bit_or_shifted (suc k) low high h = ground (
  arith,
  bit_or_lowest low (high * 2 ^ suc k),
  two_pow_suc k high,
  pow-suc 2 k,
  bit_or_shifted k (low / 2) high,
)

-- A mask of k ones is the remainder by 2 ^ k.
bit_and_ones : (k a high : ℕ) → a < 2 ^ k → bit_and (high * 2 ^ k + a) (2 ^ k - 1) ≡ a
bit_and_ones zero a high h = ground (arith, bit_and-zero (high * 2 ^ 0 + a))
bit_and_ones (suc k) a high h = ground (
  arith,
  bit_and_lowest (high * 2 ^ suc k + a) (2 ^ suc k - 1),
  two_pow_suc k high,
  pow-suc 2 k,
  bit_and_ones k (a / 2) high,
)

pub bit_and_mask : (k a : ℕ) → bit_and a (2 ^ k - 1) ≡ a % 2 ^ k
bit_and_mask k a = ground (arith, one-le-pow k 2, bit_and_ones k (a % 2 ^ k) (a / 2 ^ k))

-- A mask of one digit: the result is not 0 exactly when the digit is set.
pub bit_and_power : (a i : ℕ) → bit_and a (2 ^ i) ≡ bit a i * 2 ^ i
bit_and_power a zero = omega (arith, bit_and_lowest a 1, bit_and-zero (a / 2))
bit_and_power a (suc i) = ground (
  arith,
  bit_and_lowest a (2 ^ suc i),
  two_pow_suc i (bit (a / 2) i),
  pow-suc 2 i,
  bit_and_power (a / 2) i,
)

-- The digits of a shifted, of a cut and of a one-digit word.
pub bit-shift : (n f i j : ℕ) → j ≡ f + i → bit (n * 2 ^ f) j ≡ bit n i
bit-shift n zero i j e =
    let (same, there) : (n * 2 ^ 0 ≡ n) × (j ≡ i) = (omega arith, omega arith) in
    ap (λ (m : ℕ). bit m j) same ∙ ap (bit n) there
bit-shift n (suc f) i zero e = absurd (omega arith)
bit-shift n (suc f) i (suc j) e =
    let half : n * 2 ^ suc f / 2 ≡ n * 2 ^ f = omega (arith, two_pow_suc f n) in
    ap (λ (m : ℕ). bit m j) half ∙ bit-shift n f i j (omega arith)

pub bit-shift_low : (n f i : ℕ) → i < f → bit (n * 2 ^ f) i ≡ 0
bit-shift_low n zero i h = absurd (omega arith)
bit-shift_low n (suc f) zero h = omega (arith, two_pow_suc f n)
bit-shift_low n (suc f) (suc i) h =
    let half : n * 2 ^ suc f / 2 ≡ n * 2 ^ f = omega (arith, two_pow_suc f n) in
    ap (λ (m : ℕ). bit m i) half ∙ bit-shift_low n f i (omega arith)

bit_of_sum : (k high low i : ℕ) → i < k → bit (high * 2 ^ k + low) i ≡ bit low i
bit_of_sum zero high low i h = absurd (omega arith)
bit_of_sum (suc k) high low zero h = omega (arith, two_pow_suc k high)
bit_of_sum (suc k) high low (suc i) h =
    let half : (high * 2 ^ suc k + low) / 2 ≡ high * 2 ^ k + low / 2 =
      omega (arith, two_pow_suc k high) in
    ap (λ (m : ℕ). bit m i) half ∙ bit_of_sum k high (low / 2) i (omega arith)

pub bit-mod : (k n i : ℕ) → i < k → bit (n % 2 ^ k) i ≡ bit n i
bit-mod k n i h =
    let whole : n / 2 ^ k * 2 ^ k + n % 2 ^ k ≡ n = omega arith in
    sym (bit_of_sum k (n / 2 ^ k) (n % 2 ^ k) i h) ∙ ap (λ (m : ℕ). bit m i) whole

pub bit-zero : (i : ℕ) → bit 0 i ≡ 0
bit-zero zero = refl
bit-zero (suc i) = bit-zero i

pub bit-power_self : (i : ℕ) → bit (2 ^ i) i ≡ 1
bit-power_self zero = refl
bit-power_self (suc i) =
    let half : 2 ^ suc i / 2 ≡ 2 ^ i = omega (arith, pow-suc 2 i) in
    ap (λ (m : ℕ). bit m i) half ∙ bit-power_self i

pub bit-power_ne : (i j : ℕ) → i ≢ j → bit (2 ^ i) j ≡ 0
bit-power_ne zero zero h = absurd (h refl)
bit-power_ne zero (suc j) h = bit-zero j
bit-power_ne (suc i) zero h = omega (arith, pow-suc 2 i)
bit-power_ne (suc i) (suc j) h =
    let half : 2 ^ suc i / 2 ≡ 2 ^ i = omega (arith, pow-suc 2 i) in
    ap (λ (m : ℕ). bit m j) half ∙ bit-power_ne i j (λ e. h (ap suc e))

differ_digits : (x y : ℕ) → x < 2 → y < 2 → (differ x y < 2) × (differ (differ x y) y ≡ x)
differ_digits zero zero p q = omega arith
differ_digits zero (suc zero) p q = omega arith
differ_digits (suc zero) zero p q = omega arith
differ_digits (suc zero) (suc zero) p q = omega arith
differ_digits (suc (suc x)) y p q = absurd (omega arith)
differ_digits zero (suc (suc y)) p q = absurd (omega arith)
differ_digits (suc zero) (suc (suc y)) p q = absurd (omega arith)

pub bit_xor_parts :
    (a b : ℕ)
    → (bit_xor a b / 2 ≡ bit_xor (a / 2) (b / 2)) × (bit_xor a b % 2 ≡ differ (a % 2) (b % 2))
bit_xor_parts a b =
    omega (arith, bit_xor_lowest a b, differ_digits (a % 2) (b % 2) (omega arith) (omega arith))

-- Exclusive or stays within a width, and is undone by a second one.
pub bit_xor-lt : (k a b : ℕ) → a < 2 ^ k → b < 2 ^ k → bit_xor a b < 2 ^ k
bit_xor-lt zero a b p q =
    let a0 : a ≡ 0 = omega arith in let b0 : b ≡ 0 = omega arith in rw (a0, b0) (omega arith)
bit_xor-lt (suc k) a b p q = ground (
  arith,
  pow-suc 2 k,
  bit_xor_parts a b,
  bit_xor-lt k (a / 2) (b / 2) (omega (arith, pow-suc 2 k)) (omega (arith, pow-suc 2 k)),
)

pub bit_xor_undo : (k a b : ℕ) → a < 2 ^ k → b < 2 ^ k → bit_xor (bit_xor a b) b ≡ a
bit_xor_undo zero a b p q =
    let a0 : a ≡ 0 = omega arith in let b0 : b ≡ 0 = omega arith in rw (a0, b0) refl
bit_xor_undo (suc k) a b p q =
    let rest =
      bit_xor_undo k (a / 2) (b / 2) (omega (arith, pow-suc 2 k)) (omega (arith, pow-suc 2 k)) in
    let (halves, digit) = bit_xor_parts a b in
    let low = differ_digits (a % 2) (b % 2) (omega arith) (omega arith) in
    bit_xor_lowest (bit_xor a b) b ∙ rw (halves, digit, rest, low.1) (omega arith)

differ_comm : (x y : ℕ) → differ x y ≡ differ y x
differ_comm zero zero = refl
differ_comm zero (suc y) = refl
differ_comm (suc x) zero = refl
differ_comm (suc x) (suc y) = differ_comm x y

bit_xor_comm : (k a b : ℕ) → a < 2 ^ k → b < 2 ^ k → bit_xor a b ≡ bit_xor b a
bit_xor_comm zero a b p q =
    let a0 : a ≡ 0 = omega arith in let b0 : b ≡ 0 = omega arith in rw (a0, b0) refl
bit_xor_comm (suc k) a b p q = omega (
  arith,
  bit_xor_lowest a b,
  bit_xor_lowest b a,
  differ_comm (a % 2) (b % 2),
  bit_xor_comm k (a / 2) (b / 2) (omega (arith, pow-suc 2 k)) (omega (arith, pow-suc 2 k)),
)

-- Exclusive or with a fixed word is injective on either side.
pub bit_xor_cancel_right :
    (k : ℕ) {a b c : ℕ} → a < 2 ^ k → b < 2 ^ k → c < 2 ^ k → bit_xor a c ≡ bit_xor b c → a ≡ b
bit_xor_cancel_right k {a} {b} {c} p q r e =
    sym (bit_xor_undo k a c p r) ∙ ap (λ (x : ℕ). bit_xor x c) e ∙ bit_xor_undo k b c q r

pub bit_xor_cancel_left :
    (k : ℕ) {a b c : ℕ} → a < 2 ^ k → b < 2 ^ k → c < 2 ^ k → bit_xor c a ≡ bit_xor c b → a ≡ b
bit_xor_cancel_left k {a} {b} {c} p q r e =
    bit_xor_cancel_right k p q r (bit_xor_comm k a c p r ∙ e ∙ bit_xor_comm k c b r q)
