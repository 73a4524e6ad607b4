-- ===== src/Market/Search.antt =====
-- find_token against a description of its own, and against a search that tests no lengths.
use esp32_monitor.Base.{
  ℕ, zero, suc, ◌+◌, ◌<◌, ◌≡◌, refl, ap, sym, true, false, Bool-cases, inl, inr, Option, none, some,
  List, [], ◌∷◌, ◌||◌, ltb, ◌==◌, if◌then◌else◌, if_cases, length, take, drop, same_bytes, arith,
  length-take, length-drop,
}
use esp32_monitor.Market.Tokens.{find_from, find_token}

-- The token stands at this offset.
abbrev pub StandsAt : List ℕ → List ℕ → ℕ → Type 0
StandsAt token bytes offset = take (length token) (drop offset bytes) ≡ token

-- The offset is the first at which the token stands, or it stands nowhere.
abbrev pub IsFirst : List ℕ → List ℕ → Option ℕ → Type 0
IsFirst token bytes none = (j : ℕ) → ¬ StandsAt token bytes j
IsFirst token bytes (some i) = StandsAt token bytes i × ((j : ℕ) → j < i → ¬ StandsAt token bytes j)

pub same_bytes→eq : (xs ys : List ℕ) → same_bytes xs ys ≡ true → xs ≡ ys
same_bytes→eq [] [] h = refl
same_bytes→eq [] (y ∷ ys) h = cc
same_bytes→eq (x ∷ xs) [] h = cc
same_bytes→eq (x ∷ xs) (y ∷ ys) h = ground (arith, same_bytes→eq xs ys)

pub same_bytes_refl : (xs : List ℕ) → same_bytes xs xs ≡ true
same_bytes_refl [] = refl
same_bytes_refl (x ∷ xs) = ground (arith, same_bytes_refl xs)

-- The search that tests no length.
abbrev pub search_from : List ℕ → List ℕ → ℕ → Option ℕ
search_from token [] offset = none
search_from token (byte ∷ bytes) offset =
    let rest = search_from token bytes (offset + 1) in
    if same_bytes (take (length token) (byte ∷ bytes)) token then some offset else rest

same_bytes_short :
    (xs ys : List ℕ) → length xs < length ys → same_bytes (take (length ys) xs) ys ≡ false
same_bytes_short xs [] h = absurd (omega arith)
same_bytes_short [] (y ∷ ys) h = refl
same_bytes_short (x ∷ xs) (y ∷ ys) h = ground (arith, same_bytes_short xs ys)

search_from_short :
    (token bytes : List ℕ) (offset : ℕ)
    → length bytes < length token
    → search_from token bytes offset ≡ none
search_from_short token [] offset h = refl
search_from_short token (byte ∷ bytes) offset h =
    rw (same_bytes_short (byte ∷ bytes) token h)
      (search_from_short token bytes (offset + 1) (omega arith))

find_from_lem :
    (token bytes : List ℕ) (offset : ℕ)
    → find_from token bytes offset ≡ search_from token bytes offset
unfolding find_from
find_from_lem token [] offset = refl
find_from_lem token (byte ∷ bytes) offset =
    elim (Bool-cases (ltb (length (byte ∷ bytes)) (length token))) [
      | inl short ↦ rw short (sym (search_from_short token (byte ∷ bytes) offset (ground arith)))
      | inr long ↦ rw (long, find_from_lem token bytes (offset + 1))
    ]

pub find_token_search :
    (bytes token : List ℕ) → 0 < length token → find_token bytes token ≡ search_from token bytes 0
unfolding find_token
find_token_search bytes token h =
    elim (Bool-cases (length token == 0 || ltb (length bytes) (length token))) [
      | inl short ↦ rw short (sym (search_from_short token bytes 0 (ground arith)))
      | inr long ↦ rw long (find_from_lem token bytes 0)
    ]

-- The same, counted from the cursor on.
IsFirstFrom : List ℕ → List ℕ → ℕ → Option ℕ → Type 0
IsFirstFrom token bytes offset none = (j : ℕ) → ¬ StandsAt token bytes j
IsFirstFrom token bytes offset (some i) =
    (d : ℕ) × (i ≡ offset + d)
    × StandsAt token bytes d
    × ((j : ℕ) → j < d → ¬ StandsAt token bytes j)

not_here :
    (token : List ℕ) (byte : ℕ) (bytes : List ℕ)
    → same_bytes (take (length token) (byte ∷ bytes)) token ≡ false
    → ¬ StandsAt token (byte ∷ bytes) 0
not_here token byte bytes e s = cc (same_bytes_refl token)

not_at :
    (token : List ℕ) (byte : ℕ) (bytes : List ℕ) (j : ℕ)
    → same_bytes (take (length token) (byte ∷ bytes)) token ≡ false
    → ((k : ℕ) → suc k ≡ j → ¬ StandsAt token bytes k)
    → ¬ StandsAt token (byte ∷ bytes) j
not_at token byte bytes zero e h = not_here token byte bytes e
not_at token byte bytes (suc k) e h = h k refl

later :
    (token : List ℕ) (byte : ℕ) (bytes : List ℕ) (offset : ℕ) (found : Option ℕ)
    → same_bytes (take (length token) (byte ∷ bytes)) token ≡ false
    → IsFirstFrom token bytes (offset + 1) found
    → IsFirstFrom token (byte ∷ bytes) offset found
unfolding IsFirstFrom
later token byte bytes offset none e h = λ j. not_at token byte bytes j e (λ k eq. h k)
later token byte bytes offset (some i) e (d, at, here, before) =
    (suc d, omega arith, here, λ j lt. not_at token byte bytes j e (λ k eq. before k (omega arith)))

search_from-IsFirstFrom :
    (token bytes : List ℕ) (offset : ℕ)
    → 0 < length token
    → IsFirstFrom token bytes offset (search_from token bytes offset)
unfolding IsFirstFrom
search_from-IsFirstFrom token [] offset h =
    let rest : List ℕ = [] in
    λ j s.
      absurd
        (omega (arith, ap length s, length-take (length token) (drop j rest), length-drop j rest))
search_from-IsFirstFrom token (byte ∷ bytes) offset h =
    let P : Option ℕ → Type 0 = IsFirstFrom token (byte ∷ bytes) offset in
    if_cases P (same_bytes (take (length token) (byte ∷ bytes)) token)
      (λ e. (0, omega arith, same_bytes→eq _ token e, λ j lt. absurd (omega arith)))
      (λ e. later token byte bytes offset _ e (search_from-IsFirstFrom token bytes (offset + 1) h))

IsFirst-of :
    (token bytes : List ℕ) (found : Option ℕ)
    → IsFirstFrom token bytes 0 found
    → IsFirst token bytes found
unfolding IsFirstFrom
IsFirst-of token bytes none h = h
IsFirst-of token bytes (some i) (d, at, here, before) =
    let e : i ≡ d = omega arith in rw e (here, before)

-- For a token that is not empty, find_token gives the first offset at which the token stands in
-- the bytes, and NULL exactly if it stands nowhere in them.
pub find_token-IsFirst :
    (bytes token : List ℕ) → 0 < length token → IsFirst token bytes (find_token bytes token)
find_token-IsFirst bytes token h =
    rw (find_token_search bytes token h)
      (IsFirst-of token bytes _ (search_from-IsFirstFrom token bytes 0 h))
