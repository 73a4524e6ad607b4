-- ===== src/Market/Strings.antt =====
-- What read_bounded_string puts out, and that it reads back what is printed.
use esp32_monitor.Base.{
  ℕ, suc, ◌+◌, ◌<◌, ◌≤◌, ◌≡◌, ◌≢◌, refl, ap, ◌∙◌, true, false, Option, none, some, List, [], ◌∷◌,
  ◌++◌, ◌||◌, ltb, leb, ◌==◌, if_cases, length, drop, All, arith, length-append, take-append,
  drop-append, drop-add-append,
}
use esp32_monitor.Base.Options.{Every, >>=-Every, any-Every}
use native.Mathlib.Decide.{dec_lt}
use esp32_monitor.Json.{is_blank}
use esp32_monitor.Market.Tokens.{
  find_token, skip_blanks, expect, prepend, read_characters, quoted, read_value,
  read_bounded_string,
}
use esp32_monitor.Market.Search.{StandsAt, IsFirst, find_token-IsFirst}

-- A byte that stands for itself in a string: no control byte, no quote and no backslash.
abbrev pub IsPlain : ℕ → Type 0
IsPlain byte = (32 ≤ byte) × (byte ≢ 34) × (byte ≢ 92)

-- A plain string that leaves room for the terminator.
abbrev pub Fits : ℕ → List ℕ → Type 0
Fits capacity value = All IsPlain value × (length value < capacity)

prepend-Fits :
    (capacity count byte : ℕ) (rest : Option (List ℕ))
    → IsPlain byte
    → Every (λ value. All IsPlain value × (suc count + length value < capacity)) rest
    → Every (λ value. All IsPlain value × (count + length value < capacity)) (prepend byte rest)
prepend-Fits capacity count byte none p h = tt
prepend-Fits capacity count byte (some value) p h = ((p, h.0), omega arith)

read_characters-Fits :
    (capacity count : ℕ) (bytes : List ℕ)
    → count < capacity
    → Every
        (λ value. All IsPlain value × (count + length value < capacity))
        (read_characters capacity count bytes)
unfolding read_characters
read_characters-Fits capacity count [] h = tt
read_characters-Fits capacity count (byte ∷ bytes) h =
    let P : Option (List ℕ) → Type 0 =
      Every (λ value. All IsPlain value × (count + length value < capacity)) in
    if_cases P (byte == 34) (λ e. (tt, omega arith))
      λ e.
        if_cases P (ltb byte 32 || byte == 92 || leb capacity (count + 1)) (λ e'. tt)
          λ e'. prepend-Fits capacity count byte _ (ground arith) (
            let next : count + 1 ≡ suc count = omega arith in
            rw (← next) (read_characters-Fits capacity (count + 1) bytes (ground arith)))

read_characters_plain :
    (capacity count : ℕ) (value rest : List ℕ)
    → All IsPlain value
    → count + length value < capacity
    → read_characters capacity count (value ++ 34 ∷ rest) ≡ some value
unfolding read_characters
read_characters_plain capacity count [] rest p h = refl
read_characters_plain capacity count (byte ∷ value) rest p h =
    ground (arith, read_characters_plain capacity (count + 1) value rest)

from_start :
    (capacity : ℕ) (found : Option (List ℕ))
    → Every (λ value. All IsPlain value × (0 + length value < capacity)) found
    → Every (Fits capacity) found
from_start capacity none h = tt
from_start capacity (some value) h = (h.0, omega arith)

read_value-Fits :
    (capacity : ℕ) (cursor : List ℕ)
    → 0 < capacity
    → Every (Fits capacity) (read_value capacity cursor)
unfolding read_value
read_value-Fits capacity cursor h =
    >>=-Every (λ (l : List ℕ). Unit {0}) (Fits capacity) (expect 58 (skip_blanks cursor)) _
      (any-Every _)
      λ after_colon u.
        >>=-Every (λ (l : List ℕ). Unit {0}) (Fits capacity) (expect 34 (skip_blanks after_colon)) _
          (any-Every _)
          (λ after_quote u'. from_start capacity _ (read_characters-Fits capacity 0 after_quote h))

-- Whatever the bytes and the key, a string that is read has no control byte, no quote and no
-- backslash, and it fits the output with its terminator.
pub read_bounded_string-Fits :
    (bytes key : List ℕ) (capacity : ℕ)
    → Every (Fits capacity) (read_bounded_string bytes key capacity)
unfolding read_bounded_string
read_bounded_string-Fits bytes key capacity =
    let P : Option (List ℕ) → Type 0 = Every (Fits capacity) in
    if_cases P (leb 40 (length (quoted key)) || capacity == 0) (λ e. tt)
      λ e.
        >>=-Every (λ (i : ℕ). Unit {0}) (Fits capacity) (find_token bytes (quoted key)) _
          (any-Every _) (λ at u. read_value-Fits capacity _ (ground arith))

abbrev pub IsBlank : ℕ → Type 0
IsBlank byte = is_blank byte ≡ true

skip_blanks_past :
    (blanks : List ℕ) (byte : ℕ) (rest : List ℕ)
    → All IsBlank blanks
    → is_blank byte ≡ false
    → skip_blanks (blanks ++ byte ∷ rest) ≡ byte ∷ rest
unfolding skip_blanks
skip_blanks_past [] byte rest h e = rw e
skip_blanks_past (b ∷ blanks) byte rest h e = rw h.0 (skip_blanks_past blanks byte rest h.1 e)

-- A value as it is printed behind its key: a colon with blanks round it, and quotes.
abbrev pub printed_value : List ℕ → List ℕ → List ℕ → List ℕ → List ℕ
printed_value blanks blanks' value rest = blanks ++ 58 ∷ (blanks' ++ 34 ∷ (value ++ 34 ∷ rest))

pub read_value_printed :
    (capacity : ℕ) (blanks blanks' value rest : List ℕ)
    → All IsBlank blanks
    → All IsBlank blanks'
    → Fits capacity value
    → read_value capacity (printed_value blanks blanks' value rest) ≡ some value
unfolding read_value expect
read_value_printed capacity blanks blanks' value rest h h' fits =
    rw
      (
        skip_blanks_past blanks 58 (blanks' ++ 34 ∷ (value ++ 34 ∷ rest)) h refl,
        skip_blanks_past blanks' 34 (value ++ 34 ∷ rest) h' refl,
      )
      (read_characters_plain capacity 0 value rest fits.0 (omega (arith, fits.1)))

StandsAt-append :
    (token before after : List ℕ) → StandsAt token (before ++ (token ++ after)) (length before)
StandsAt-append token before after =
    rw (drop-append (length before) before (token ++ after) refl)
      (take-append (length token) token after refl)

pub length-quoted : (key : List ℕ) → length (quoted key) ≡ length key + 2
unfolding quoted
length-quoted key = omega (arith, length-append key (34 ∷ []))

first_is :
    (token bytes : List ℕ) (n : ℕ) (found : Option ℕ)
    → IsFirst token bytes found
    → StandsAt token bytes n
    → ((j : ℕ) → j < n → ¬ StandsAt token bytes j)
    → found ≡ some n
first_is token bytes n none f here before = absurd (f n here)
first_is token bytes n (some i) f here before = elim (dec_lt i n) [
  | yes lt ↦ absurd (before i lt f.0)
  | no ge ↦ elim (dec_lt n i) [
    | yes lt ↦ absurd (f.1 n lt here)
    | no le ↦ let e : i ≡ n = omega arith in ap (λ (k : ℕ). some k) e
  ]
]

-- A string that is printed behind its key reads back, whatever blanks stand round the colon and
-- whatever text stands before and after: for a key of at most 37 bytes that does not stand in
-- quotes before, and a plain value that fits the output.
pub read_bounded_string_printed :
    (before key blanks blanks' value rest : List ℕ) (capacity : ℕ)
    → let bytes : List ℕ = before ++ (quoted key ++ printed_value blanks blanks' value rest) in
      length key ≤ 37
      → ((j : ℕ) → j < length before → ¬ StandsAt (quoted key) bytes j)
      → All IsBlank blanks
      → All IsBlank blanks'
      → Fits capacity value
      → read_bounded_string bytes key capacity ≡ some value
unfolding read_bounded_string
read_bounded_string_printed before key blanks blanks' value rest capacity short none_before h h'
      fits =
    let after : List ℕ = printed_value blanks blanks' value rest in
    let bytes : List ℕ = before ++ (quoted key ++ after) in
    let size : length (quoted key) ≡ length key + 2 = length-quoted key in
    let found : find_token bytes (quoted key) ≡ some (length before) =
      first_is (quoted key) bytes (length before) _
        (find_token-IsFirst bytes (quoted key) (omega arith))
        (StandsAt-append (quoted key) before after) none_before in
    let behind : drop (length before + length (quoted key)) bytes ≡ after =
      drop-add-append (length (quoted key)) _ before _ refl
      ∙ drop-append _ (quoted key) after refl in
    let room : (leb 40 (length (quoted key)) || capacity == 0) ≡ false =
      ground (arith, fits.1, size) in
    rw (room, found, behind) (read_value_printed capacity blanks blanks' value rest h h' fits)
