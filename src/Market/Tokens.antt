-- ===== src/Market/Tokens.antt =====
-- components/market/market_parser.c, the reading of text: find_token and read_bounded_string. The
-- bytes between two pointers are a list, a cursor is the list from it on.
use esp32_monitor.Base.{
  ℕ, ◌+◌, Option, none, some, List, [], ◌∷◌, ◌++◌, ◌||◌, ltb, leb, ◌==◌, if◌then◌else◌, length,
  take, drop, same_bytes,
}
use esp32_monitor.Base.Options.{◌>>=◌}
use esp32_monitor.Json.{is_blank}

-- The cursor's loop; the offset of the cursor is counted.
unfoldable pub find_from : List ℕ → List ℕ → ℕ → Option ℕ
find_from token [] offset = none
find_from token (byte ∷ bytes) offset =
    let rest = find_from token bytes (offset + 1) in
    if ltb (length (byte ∷ bytes)) (length token)
    then none
    else if same_bytes (take (length token) (byte ∷ bytes)) token
    then some offset
    else rest

-- The offset of the pointer that is returned; `none` is NULL.
unfoldable pub find_token : List ℕ → List ℕ → Option ℕ
find_token bytes token =
    if length token == 0 || ltb (length bytes) (length token) then none else find_from token bytes 0

unfoldable pub skip_blanks : List ℕ → List ℕ
skip_blanks [] = []
skip_blanks (byte ∷ bytes) = if is_blank byte then skip_blanks bytes else byte ∷ bytes

-- cursor < end and *cursor++ is that byte.
unfoldable pub expect : ℕ → List ℕ → Option (List ℕ)
expect wanted [] = none
expect wanted (byte ∷ bytes) = if byte == wanted then some bytes else none

abbrev pub prepend : ℕ → Option (List ℕ) → Option (List ℕ)
prepend byte none = none
prepend byte (some bytes) = some (byte ∷ bytes)

-- The loop to the closing quote, with `count` bytes put out so far.
unfoldable pub read_characters : ℕ → ℕ → List ℕ → Option (List ℕ)
read_characters capacity count [] = none
read_characters capacity count (byte ∷ bytes) =
    let rest = read_characters capacity (count + 1) bytes in
    if byte == 34
    then some []
    else if ltb byte 32 || byte == 92 || leb capacity (count + 1)
    then none
    else prepend byte rest

unfoldable pub quoted : List ℕ → List ℕ
quoted key = 34 ∷ (key ++ 34 ∷ [])

-- From behind the key on.
unfoldable pub read_value : ℕ → List ℕ → Option (List ℕ)
read_value capacity cursor = do
  after_colon ← expect 58 (skip_blanks cursor)
  after_quote ← expect 34 (skip_blanks after_colon)
  read_characters capacity 0 after_quote

-- `none` where it returns false, and otherwise the output.
unfoldable pub read_bounded_string : List ℕ → List ℕ → ℕ → Option (List ℕ)
read_bounded_string bytes key capacity =
    let out = find_token bytes (quoted key) >>= λ at.
    read_value capacity (drop (at + length (quoted key)) bytes) in
    if leb 40 (length (quoted key)) || capacity == 0 then none else out
