-- ===== src/Base/Options.antt =====
-- Chains of results that may be missing, for do blocks.
use mathlib.Core.Path.{◌≡◌, refl, subst}
use mathlib.Core.Bool.{Bool, true, false}
use mathlib.Core.Option.{Option, none, some}

infixl 5 ◌>>=◌ ◌>>◌
abbrev pub ◌>>=◌ {ℓ κ} : {A : Type ℓ} {B : Type κ} → Option A → (A → Option B) → Option B
none >>= f = none
some a >>= f = f a

abbrev pub ◌>>◌ {ℓ} : {B : Type ℓ} → Option (Unit {0}) → Option B → Option B
m >> k = m >>= λ _. k

abbrev pub require : Bool → Option (Unit {0})
require true = some tt
require false = none

-- P holds of the result, where there is one.
abbrev pub Every {ℓ κ} : {A : Type ℓ} → (A → Type κ) → Option A → Type κ
Every P none = Unit
Every P (some a) = P a

pub >>=-Every {ℓ κ μ ν} :
    {A : Type ℓ} {B : Type κ} (Q : A → Type μ) (P : B → Type ν) (m : Option A) (f : A → Option B)
    → Every Q m
    → ((a : A) → Q a → Every P (f a))
    → Every P (m >>= f)
>>=-Every Q P none f h k = tt
>>=-Every Q P (some a) f h k = k a h

pub require-Every {ℓ κ} :
    {B : Type ℓ} (P : B → Type κ) (test : Bool) (k : Option B)
    → (test ≡ true → Every P k)
    → Every P (require test >> k)
require-Every P true k h = h refl
require-Every P false k h = tt

pub any-Every {ℓ} : {A : Type ℓ} (m : Option A) → Every (λ (a : A). Unit {0}) m
any-Every none = tt
any-Every (some a) = tt

pub bind-Every {ℓ κ μ} :
    {A : Type ℓ} {B : Type κ} (P : B → Type μ) (m : Option A) (f : A → Option B)
    → ((a : A) → Every P (f a))
    → Every P (m >>= f)
bind-Every P none f h = tt
bind-Every P (some a) f h = h a

pub Every-some {ℓ κ} :
    {A : Type ℓ} (P : A → Type κ) (m : Option A) {a : A} → Every P m → m ≡ some a → P a
Every-some P m h e = subst (λ o. Every P o) e h
