-- ===== src/Market/Behind.antt =====
-- What stands behind a token in a text of names and numbers in quotes.
use esp32_monitor.Base.{
  ℕ, ◌||◌, leb, ◌≤◌, ◌≢◌, sym, ap, drop-drop, Bool-cases, inl, inr, ◌+◌, ◌<◌, ◌≡◌, refl, ◌∙◌, false,
  Option, none, some, List, [], ◌∷◌, ◌++◌, ◌==◌, if◌then◌else◌, length, take, drop, All, same_bytes,
  arith,
}
use esp32_monitor.Base.Options.{◌>>=◌}
use esp32_monitor.Market.Search.{search_from, find_token_search}
use esp32_monitor.Market.Strings.{IsPlain}
use esp32_monitor.Market.Tokens.{quoted, read_value, read_bounded_string}
use esp32_monitor.Market.Strings.{read_value_printed, length-quoted}

-- A byte of a number: plain, and before the letters.
abbrev pub IsNumeral : ℕ → Type 0
IsNumeral byte = (32 ≤ byte) × (byte ≢ 34) × (byte < 58)

IsPlain-of : (value : List ℕ) → All IsNumeral value → All IsPlain value
IsPlain-of [] h = tt
IsPlain-of (byte ∷ value) h =
    ((h.0.0, h.0.1, λ e. absurd (omega (arith, h.0.2))), IsPlain-of value h.1)

-- What stands behind the first place of the token.
abbrev pub search_behind : List ℕ → List ℕ → Option (List ℕ)
search_behind token [] = none
search_behind token (byte ∷ bytes) =
    let rest = search_behind token bytes in
    if same_bytes (take (length token) (byte ∷ bytes)) token
    then some (drop (length token) (byte ∷ bytes))
    else rest

-- The same through the offset.
search_from_behind :
    (token whole bytes : List ℕ) (offset : ℕ) (f : List ℕ → Option (List ℕ))
    → drop offset whole ≡ bytes
    → (search_from token bytes offset >>= λ at. f (drop (at + length token) whole))
      ≡ (search_behind token bytes >>= f)
search_from_behind token whole [] offset f h = refl
search_from_behind token whole (byte ∷ bytes) offset f h =
    elim (Bool-cases (same_bytes (take (length token) (byte ∷ bytes)) token)) [
      | inl here ↦ rw here (
          ap f (
            sym (drop-drop offset (length token) _ whole refl) ∙ ap (λ l. drop (length token) l) h))
      | inr not_here ↦ rw not_here (
          search_from_behind token whole bytes (offset + 1) f
            (sym (drop-drop offset 1 _ whole refl) ∙ ap (λ l. drop 1 l) h))
    ]

pub search_from-none :
    (token bytes : List ℕ) (offset : ℕ)
    → search_behind token bytes ≡ none
    → search_from token bytes offset ≡ none
search_from-none token [] offset h = refl
search_from-none token (byte ∷ bytes) offset h =
    elim (Bool-cases (same_bytes (take (length token) (byte ∷ bytes)) token)) [
      | inl here ↦ cc (rw here at h)
      | inr not_here ↦ rw not_here (search_from-none token bytes (offset + 1) (rw not_here at h))
    ]

-- A plain text in front has no token in quotes in it.
search_past :
    (token value rest : List ℕ)
    → All IsPlain value
    → search_behind (34 ∷ token) (value ++ rest) ≡ search_behind (34 ∷ token) rest
search_past token [] rest h = refl
search_past token (byte ∷ value) rest h = ground (arith, search_past token value rest h.1)

-- Nor is a number in quotes the token of a name.
pub search_over :
    (letter : ℕ) (token value rest : List ℕ)
    → 57 < letter
    → All IsNumeral value
    → search_behind (34 ∷ letter ∷ token) (34 ∷ (value ++ 34 ∷ rest))
      ≡ search_behind (34 ∷ letter ∷ token) (34 ∷ rest)
search_over letter token [] rest l h = ground arith
search_over letter token (byte ∷ value) rest l h =
    let past : search_behind (34 ∷ letter ∷ token) (byte ∷ (value ++ 34 ∷ rest))
        ≡ search_behind (34 ∷ letter ∷ token) (34 ∷ rest) =
      search_past (letter ∷ token) (byte ∷ value) (34 ∷ rest) (IsPlain-of (byte ∷ value) h) in
    let other : (byte == letter) ≡ false = ground arith in rw other past

read_bounded_string_behind :
    (bytes key : List ℕ) (capacity : ℕ)
    → length key < 38
    → 0 < capacity
    → read_bounded_string bytes key capacity
      ≡ (search_behind (quoted key) bytes >>= read_value capacity)
unfolding read_bounded_string
read_bounded_string_behind bytes key capacity short room =
    let size : length (quoted key) ≡ length key + 2 = length-quoted key in
    let fits : (leb 40 (length (quoted key)) || capacity == 0) ≡ false = ground (arith, size) in
    rw (fits, find_token_search bytes (quoted key) (omega (arith, size)))
      (search_from_behind (quoted key) bytes bytes 0 (read_value capacity) refl)

-- A value that stands behind its key, found wherever the key is.
pub read_string :
    (bytes key value rest : List ℕ) (capacity : ℕ)
    → length key < 38
    → All IsNumeral value
    → length value < capacity
    → search_behind (quoted key) bytes ≡ some (58 ∷ 34 ∷ (value ++ 34 ∷ rest))
    → read_bounded_string bytes key capacity ≡ some value
read_string bytes key value rest capacity short h room found =
    rw (read_bounded_string_behind bytes key capacity short (omega arith), found)
      (read_value_printed capacity [] [] value rest tt tt (IsPlain-of value h, room))
