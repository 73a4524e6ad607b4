-- ===== src/Base/Lists.antt =====
-- Byte buffers as lists, measured and indexed by native numbers.
use Prim.Native.Nat.{ℕ, zero, suc, ◌+◌, ◌-◌, ◌≤◌, min}
use mathlib.Core.Path.{◌≡◌, refl, ap, ap₂, ◌∙◌}
use mathlib.Core.List.{List, [], ◌∷◌, ◌++◌}
use native.Mathlib.Omega.{arith}

module _ {ℓ} {A : Type ℓ} where
  abbrev pub length : List A → ℕ
  length [] = 0
  length (x ∷ xs) = suc (length xs)

  abbrev pub get_or : List A → ℕ → A → A
  get_or [] i d = d
  get_or (x ∷ xs) zero d = x
  get_or (x ∷ xs) (suc i) d = get_or xs i d

  abbrev pub take : ℕ → List A → List A
  take zero xs = []
  take (suc n) [] = []
  take (suc n) (x ∷ xs) = x ∷ take n xs

  abbrev pub drop : ℕ → List A → List A
  drop zero xs = xs
  drop (suc n) [] = []
  drop (suc n) (x ∷ xs) = drop n xs

  abbrev pub replicate : ℕ → A → List A
  replicate zero a = []
  replicate (suc n) a = a ∷ replicate n a

  abbrev pub All {κ} : (A → Type κ) → List A → Type κ
  All P [] = Unit
  All P (x ∷ xs) = P x × All P xs

module _ {ℓ} {A : Type ℓ} where
  pub length-append : (xs ys : List A) → length (xs ++ ys) ≡ length xs + length ys
  length-append [] ys = omega arith
  length-append (x ∷ xs) ys = omega (arith, length-append xs ys)

  pub length-take : (n : ℕ) (xs : List A) → length (take n xs) ≡ min n (length xs)
  length-take zero xs = omega arith
  length-take (suc n) [] = omega arith
  length-take (suc n) (x ∷ xs) = omega (arith, length-take n xs)

  pub length-drop : (n : ℕ) (xs : List A) → length (drop n xs) ≡ length xs - n
  length-drop zero xs = omega arith
  length-drop (suc n) [] = omega arith
  length-drop (suc n) (x ∷ xs) = omega (arith, length-drop n xs)

  pub take-append-drop : (n : ℕ) (xs : List A) → take n xs ++ drop n xs ≡ xs
  take-append-drop zero xs = refl
  take-append-drop (suc n) [] = refl
  take-append-drop (suc n) (x ∷ xs) = ap (λ r. x ∷ r) (take-append-drop n xs)

  -- A prefix of known length is what `take` gives and `drop` takes away.
  pub take-append : (n : ℕ) (xs ys : List A) → n ≡ length xs → take n (xs ++ ys) ≡ xs
  take-append zero [] ys e = refl
  take-append zero (x ∷ xs) ys e = absurd (omega arith)
  take-append (suc n) [] ys e = absurd (omega arith)
  take-append (suc n) (x ∷ xs) ys e = ap (λ r. x ∷ r) (take-append n xs ys (omega arith))

  pub drop-append : (n : ℕ) (xs ys : List A) → n ≡ length xs → drop n (xs ++ ys) ≡ ys
  drop-append zero [] ys e = refl
  drop-append zero (x ∷ xs) ys e = absurd (omega arith)
  drop-append (suc n) [] ys e = absurd (omega arith)
  drop-append (suc n) (x ∷ xs) ys e = drop-append n xs ys (omega arith)

  pub drop-drop : (m n k : ℕ) (xs : List A) → m + n ≡ k → drop n (drop m xs) ≡ drop k xs
  drop-drop zero n k xs e = let e' : n ≡ k = omega arith in ap (λ (j : ℕ). drop j xs) e'
  drop-drop (suc m) zero zero xs e = absurd (omega arith)
  drop-drop (suc m) (suc n) zero xs e = absurd (omega arith)
  drop-drop (suc m) zero (suc k) [] e = refl
  drop-drop (suc m) (suc n) (suc k) [] e = refl
  drop-drop (suc m) n (suc k) (x ∷ xs) e = drop-drop m n k xs (omega arith)

  pub take_all : (n : ℕ) (xs : List A) → length xs ≤ n → take n xs ≡ xs
  take_all zero [] h = refl
  take_all zero (x ∷ xs) h = absurd (omega arith)
  take_all (suc n) [] h = refl
  take_all (suc n) (x ∷ xs) h = ap (λ r. x ∷ r) (take_all n xs (omega arith))

  pub drop_all : (n : ℕ) (xs : List A) → length xs ≤ n → drop n xs ≡ []
  drop_all zero [] h = refl
  drop_all zero (x ∷ xs) h = absurd (omega arith)
  drop_all (suc n) [] h = refl
  drop_all (suc n) (x ∷ xs) h = drop_all n xs (omega arith)

  pub take-take-drop :
      (m n k : ℕ) (xs : List A) → m + n ≡ k → take m xs ++ take n (drop m xs) ≡ take k xs
  take-take-drop zero n k xs e = let e' : n ≡ k = omega arith in ap (λ (j : ℕ). take j xs) e'
  take-take-drop (suc m) n zero xs e = absurd (omega arith)
  take-take-drop (suc m) zero (suc k) [] e = refl
  take-take-drop (suc m) (suc n) (suc k) [] e = refl
  take-take-drop (suc m) n (suc k) (x ∷ xs) e =
      ap (λ r. x ∷ r) (take-take-drop m n k xs (omega arith))

  pub get_or-append :
      (xs ys : List A) (i j : ℕ) (d : A) → j ≡ length xs + i → get_or (xs ++ ys) j d ≡ get_or ys i d
  get_or-append [] ys i j d e = let e' : j ≡ i = omega arith in ap (λ (k : ℕ). get_or ys k d) e'
  get_or-append (x ∷ xs) ys i zero d e = absurd (omega arith)
  get_or-append (x ∷ xs) ys i (suc j) d e = get_or-append xs ys i j d (omega arith)

  -- `count` elements read one by one from index i on.
  abbrev pub gets : ℕ → ℕ → List A → A → List A
  gets zero i xs d = []
  gets (suc count) i xs d = get_or xs i d ∷ gets count (suc i) xs d

  gets_tail :
      (count i : ℕ) (x : A) (xs : List A) (d : A)
      → gets count (suc i) (x ∷ xs) d ≡ gets count i xs d
  gets_tail zero i x xs d = refl
  gets_tail (suc count) i x xs d = ap (λ r. get_or xs i d ∷ r) (gets_tail count (suc i) x xs d)

  pub gets-take-drop :
      (count i : ℕ) (xs : List A) (d : A)
      → i + count ≤ length xs
      → gets count i xs d ≡ take count (drop i xs)
  gets-take-drop zero zero xs d h = refl
  gets-take-drop zero (suc i) xs d h = refl
  gets-take-drop (suc count) i [] d h = absurd (omega arith)
  gets-take-drop (suc count) zero (x ∷ xs) d h =
      ap (λ r. x ∷ r) (gets_tail count 0 x xs d ∙ gets-take-drop count 0 xs d (omega arith))
  gets-take-drop (suc count) (suc i) (x ∷ xs) d h =
      gets_tail (suc count) i x xs d ∙ gets-take-drop (suc count) i xs d (omega arith)

  pub get_or-All {κ} :
      (P : A → Type κ) (xs : List A) (i : ℕ) (d : A) → All P xs → P d → P (get_or xs i d)
  get_or-All P [] i d h k = k
  get_or-All P (x ∷ xs) zero d h k = h.0
  get_or-All P (x ∷ xs) (suc i) d h k = get_or-All P xs i d h.1 k

  pub All-append {κ} : (P : A → Type κ) (xs ys : List A) → All P xs → All P ys → All P (xs ++ ys)
  All-append P [] ys h k = k
  All-append P (x ∷ xs) ys h k = (h.0, All-append P xs ys h.1 k)

  pub All-take {κ} : (P : A → Type κ) (n : ℕ) (xs : List A) → All P xs → All P (take n xs)
  All-take P zero xs h = tt
  All-take P (suc n) [] h = tt
  All-take P (suc n) (x ∷ xs) h = (h.0, All-take P n xs h.1)

  pub All-drop {κ} : (P : A → Type κ) (n : ℕ) (xs : List A) → All P xs → All P (drop n xs)
  All-drop P zero xs h = h
  All-drop P (suc n) [] h = tt
  All-drop P (suc n) (x ∷ xs) h = All-drop P n xs h.1

  -- Dropping a prefix and `n` more.
  pub drop-add-append :
      (n k : ℕ) (xs ys : List A) → k ≡ length xs + n → drop k (xs ++ ys) ≡ drop n ys
  drop-add-append n k [] ys e = let e' : k ≡ n = omega arith in ap (λ (j : ℕ). drop j ys) e'
  drop-add-append n zero (x ∷ xs) ys e = absurd (omega arith)
  drop-add-append n (suc k) (x ∷ xs) ys e = drop-add-append n k xs ys (omega arith)

-- memcpy(&xs[offset], bytes, length bytes) for a range inside `xs`.
abbrev pub copy_to : List ℕ → ℕ → List ℕ → List ℕ
copy_to xs offset bytes = take offset xs ++ bytes ++ drop (offset + length bytes) xs

-- Writes that follow one another build up a prefix of the buffer.
pub copy_to_next :
    (written bytes xs : List ℕ) (offset : ℕ)
    → offset ≡ length written
    → copy_to (written ++ drop (length written) xs) offset bytes
      ≡ (written ++ bytes) ++ drop (length (written ++ bytes)) xs
copy_to_next written bytes xs offset e =
    ap₂ (λ p q. p ++ bytes ++ q) (take-append offset written _ e)
      (drop-add-append (length bytes) _ written _ (omega arith)
        ∙ drop-drop (length written) (length bytes) _ xs
            (omega (arith, length-append written bytes)))

pub copy_to_then :
    {buffer : List ℕ} (written bytes xs : List ℕ) (offset : ℕ)
    → buffer ≡ written ++ drop (length written) xs
    → offset ≡ length written
    → copy_to buffer offset bytes ≡ (written ++ bytes) ++ drop (length (written ++ bytes)) xs
copy_to_then written bytes xs offset e at =
    ap (λ b. copy_to b offset bytes) e ∙ copy_to_next written bytes xs offset at
