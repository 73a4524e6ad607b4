-- ===== src/Base/Places.antt =====
-- Lists that differ in one place.
use Prim.Native.Nat.{ℕ, zero, suc, ◌+◌, ◌≤◌}
use mathlib.Core.Path.{◌≡◌, refl, ap}
use mathlib.Core.Logic.{◌≢◌}
use mathlib.Core.List.{List, [], ◌∷◌, ◌++◌}
use native.Mathlib.Omega.{arith}
use esp32_monitor.Base.Lists.{length, take, get_or, All}

module _ {ℓ} {A : Type ℓ} where
  pub All-middle {κ} :
      (P : A → Type κ) (before after : List A) (x : A) → All P (before ++ x ∷ after) → P x
  All-middle P [] after x h = h.0
  All-middle P (y ∷ before) after x h = All-middle P before after x h.1

  pub take_before :
      (k : ℕ) (before after : List A) → k ≤ length before → take k (before ++ after) ≡ take k before
  take_before zero before after h = refl
  take_before (suc k) [] after h = absurd (omega arith)
  take_before (suc k) (x ∷ before) after h =
      ap (λ r. x ∷ r) (take_before k before after (omega arith))

  pub take_around :
      (k m : ℕ) (before after : List A) (x : A)
      → k ≡ length before + suc m
      → take k (before ++ x ∷ after) ≡ before ++ x ∷ take m after
  take_around zero m before after x h = absurd (omega arith)
  take_around (suc k) m [] after x h =
      let e : k ≡ m = omega arith in ap (λ (n : ℕ). x ∷ take n after) e
  take_around (suc k) m (y ∷ before) after x h =
      ap (λ r. y ∷ r) (take_around k m before after x (omega arith))

  pub get_or_around :
      (j : ℕ) (before after : List A) (x y d : A)
      → j ≢ length before
      → get_or (before ++ x ∷ after) j d ≡ get_or (before ++ y ∷ after) j d
  get_or_around zero [] after x y d h = absurd (h refl)
  get_or_around (suc j) [] after x y d h = refl
  get_or_around zero (z ∷ before) after x y d h = refl
  get_or_around (suc j) (z ∷ before) after x y d h =
      get_or_around j before after x y d (λ e. h (ap suc e))
