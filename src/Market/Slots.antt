-- ===== src/Market/Slots.antt =====
-- The four slots of the Shanghai exchange and the values that are accepted for an index.
use esp32_monitor.Base.{
  ℕ, zero, suc, ◌<◌, ◌≡◌, ◌≢◌, refl, ap, true, false, not, ◌||◌, Option, List, [], ◌∷◌, ℤ, ◌==◌,
  if_cases, length, get_or, same_bytes, bounded, text, bit, bit_and, bit-bit_and, bit_below, ==→eq,
  arith,
}
use esp32_monitor.Base.Options.{Every}
use esp32_monitor.Json.{Double}
use esp32_monitor.AppModel.{MarketIndex}
use esp32_monitor.Market.Search.{same_bytes→eq}
use esp32_monitor.Market.Parser.{
  Reals, fits_signed, slot_for_sse_code, display_name_for_slot, convert_values, is_out_of_range,
  index_of, set,
}

-- The codes of the exchange's four slots.
abbrev pub sse_code : ℕ → List ℕ
sse_code slot =
    get_or (text "000001" ∷ [] ∷ [] ∷ text "000688" ∷ text "000300" ∷ text "000905" ∷ []) slot []

-- The index of this slot: its name, its code, and values in the range of their types.
pub record IsIndexOf (slot : ℕ) (index : MarketIndex) : Type 0 where
  pub named : index.index_name ≡ display_name_for_slot slot
  pub coded : index.index_code ≡ sse_code slot
  pub points_fit : fits_signed 31 index.points_x100 ≡ true
  pub change_fits : fits_signed 15 index.change_basis_points ≡ true

-- One of the four, with its index.
pub data IsSlot : ℕ → Type 0 where
  shanghai : IsSlot 0
  star : IsSlot 3
  csi_300 : IsSlot 4
  csi_500 : IsSlot 5

abbrev pub IsEntry : ℕ × MarketIndex → Type 0
IsEntry (slot, index) = IsSlot slot × IsIndexOf slot index

pub slot_for_sse_code-IsSlot :
    (code : List ℕ) → Every (λ slot. IsSlot slot × (code ≡ sse_code slot)) (slot_for_sse_code code)
unfolding slot_for_sse_code
slot_for_sse_code-IsSlot code =
    let P : Option ℕ → Type 0 = Every (λ slot. IsSlot slot × (code ≡ sse_code slot)) in
    if_cases P (same_bytes code (text "000001")) (λ e. (shanghai, same_bytes→eq _ _ e))
      λ _.
        if_cases P (same_bytes code (text "000688")) (λ e. (star, same_bytes→eq _ _ e))
          λ _.
            if_cases P (same_bytes code (text "000300")) (λ e. (csi_300, same_bytes→eq _ _ e))
              λ _.
                if_cases P (same_bytes code (text "000905")) (λ e. (csi_500, same_bytes→eq _ _ e))
                  (λ _. tt)

abbrev pub Fitting : ℤ × ℤ → Type 0
Fitting (points, change) = (fits_signed 31 points ≡ true) × (fits_signed 15 change ≡ true)

both_fit :
    (points change : ℤ)
    → (not (fits_signed 31 points) || not (fits_signed 15 change)) ≡ false
    → Fitting (points, change)
both_fit points change e = ground arith

pub convert_values-Fitting :
    (reals : Reals) (points change : Double) → Every Fitting (convert_values reals points change)
unfolding convert_values
convert_values-Fitting reals points change =
    let P : Option (ℤ × ℤ) → Type 0 = Every Fitting in
    if_cases P (is_out_of_range points change) (λ _. tt)
      λ _.
        if_cases P
          (not (fits_signed 31 (reals.llround_x100 points))
            || not (fits_signed 15 (reals.lround_x100 change)))
          (λ _. tt) (both_fit (reals.llround_x100 points) (reals.lround_x100 change))

name_fits :
    {slot : ℕ} → IsSlot slot → bounded 20 (display_name_for_slot slot) ≡ display_name_for_slot slot
unfolding display_name_for_slot
name_fits shanghai = refl
name_fits star = refl
name_fits csi_300 = refl
name_fits csi_500 = refl

code_fits : {slot : ℕ} → IsSlot slot → bounded 8 (sse_code slot) ≡ sse_code slot
code_fits shanghai = refl
code_fits star = refl
code_fits csi_300 = refl
code_fits csi_500 = refl

pub slot-ne-one : {slot : ℕ} → IsSlot slot → slot ≢ 1
slot-ne-one shanghai e = absurd (omega arith)
slot-ne-one star e = absurd (omega arith)
slot-ne-one csi_300 e = absurd (omega arith)
slot-ne-one csi_500 e = absurd (omega arith)

pub slot-ne-two : {slot : ℕ} → IsSlot slot → slot ≢ 2
slot-ne-two shanghai e = absurd (omega arith)
slot-ne-two star e = absurd (omega arith)
slot-ne-two csi_300 e = absurd (omega arith)
slot-ne-two csi_500 e = absurd (omega arith)

pub slot-lt-six : {slot : ℕ} → IsSlot slot → slot < 6
slot-lt-six shanghai = omega arith
slot-lt-six star = omega arith
slot-lt-six csi_300 = omega arith
slot-lt-six csi_500 = omega arith

in_required_mask : {slot : ℕ} → IsSlot slot → bit 57 slot ≡ 1
in_required_mask shanghai = refl
in_required_mask star = refl
in_required_mask csi_300 = refl
in_required_mask csi_500 = refl

pub found_bit :
    (found_mask : ℕ) {slot : ℕ}
    → (bit_and found_mask 57 == 57) ≡ true
    → IsSlot slot
    → bit found_mask slot ≡ 1
found_bit found_mask {slot} e at =
    let whole : bit_and found_mask 57 ≡ 57 = ==→eq _ _ e in
    omega (
      arith,
      bit-bit_and found_mask 57 slot,
      ap (λ (k : ℕ). bit k slot) whole,
      in_required_mask at,
      bit_below found_mask slot,
    )

module _ {A : Type 0} where
  pub length-set : (xs : List A) (i : ℕ) (v : A) → length (set xs i v) ≡ length xs
  length-set [] i v = refl
  length-set (x ∷ xs) zero v = refl
  length-set (x ∷ xs) (suc i) v = ap suc (length-set xs i v)

  pub get_or-set_self :
      (xs : List A) (i : ℕ) (v d : A) → i < length xs → get_or (set xs i v) i d ≡ v
  get_or-set_self [] i v d h = absurd (omega arith)
  get_or-set_self (x ∷ xs) zero v d h = refl
  get_or-set_self (x ∷ xs) (suc i) v d h = get_or-set_self xs i v d (omega arith)

  pub get_or-set_ne :
      (xs : List A) (i j : ℕ) (v d : A) → i ≢ j → get_or (set xs i v) j d ≡ get_or xs j d
  get_or-set_ne [] i j v d h = refl
  get_or-set_ne (x ∷ xs) zero zero v d h = absurd (h refl)
  get_or-set_ne (x ∷ xs) zero (suc j) v d h = refl
  get_or-set_ne (x ∷ xs) (suc i) zero v d h = refl
  get_or-set_ne (x ∷ xs) (suc i) (suc j) v d h = get_or-set_ne xs i j v d (λ e. h (ap suc e))

pub index_of-IsIndexOf :
    (slot : ℕ) (code : List ℕ) (values : ℤ × ℤ)
    → IsSlot slot
    → code ≡ sse_code slot
    → Fitting values
    → IsIndexOf slot (index_of (display_name_for_slot slot) code values)
unfolding display_name_for_slot
index_of-IsIndexOf slot code values s e f = record {
  named = name_fits s;
  coded = rw e (code_fits s);
  points_fit = f.0;
  change_fits = f.1;
}
