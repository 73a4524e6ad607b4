-- ===== src/Supervisor/Payloads/Depth.antt =====
-- json_depth_within_limit compares the depth of nesting outside strings.
use esp32_monitor.Base.{
  ℕ, ◌+◌, ◌-◌, ◌≡◌, arith, max, true, false, List, [], ◌∷◌, leb, if◌then◌else◌, Bool-cases, inl,
  inr,
}
use esp32_monitor.Supervisor.Payloads.{
  Scan, is_quote, is_backslash, opens, closes, scan_within_limit, json_depth_within_limit,
}

-- Where a byte of a document stands.
pub data Place : Type 0 where
  outside inside after_backslash : Place

-- The deepest nesting that is reached from a place and a depth on: a string from a quote to the
-- next one that no backslash precedes counts for nothing, and a bracket too many closes nothing.
unfoldable pub nesting : Place → ℕ → List ℕ → ℕ
nesting place d [] = 0
nesting outside d (byte ∷ bytes) =
    let string = nesting inside d bytes in
    let deeper = nesting outside (d + 1) bytes in
    let higher = nesting outside (d - 1) bytes in
    let same = nesting outside d bytes in
    if is_quote byte
    then string
    else if opens byte
    then max (d + 1) deeper
    else if closes byte
    then higher
    else same
nesting inside d (byte ∷ bytes) =
    let escape = nesting after_backslash d bytes in
    let end = nesting outside d bytes in
    let same = nesting inside d bytes in
    if is_backslash byte then escape else if is_quote byte then end else same
nesting after_backslash d (byte ∷ bytes) = nesting inside d bytes

abbrev scan_at : Place → ℕ → Scan
scan_at outside d = record { depth = d; in_string = false; escaped = false }
scan_at inside d = record { depth = d; in_string = true; escaped = false }
scan_at after_backslash d = record { depth = d; in_string = true; escaped = true }

scan_within_limit-nesting :
    (m : ℕ) (place : Place) (d : ℕ) (bytes : List ℕ)
    → scan_within_limit m (scan_at place d) bytes ≡ leb (nesting place d bytes) m
unfolding scan_within_limit nesting
scan_within_limit-nesting m outside d [] = ground arith
scan_within_limit-nesting m inside d [] = ground arith
scan_within_limit-nesting m after_backslash d [] = ground arith
scan_within_limit-nesting m outside d (byte ∷ bytes) =
    let string = scan_within_limit-nesting m inside d bytes in
    let deeper = scan_within_limit-nesting m outside (d + 1) bytes in
    let higher = scan_within_limit-nesting m outside (d - 1) bytes in
    let same = scan_within_limit-nesting m outside d bytes in
    elim (Bool-cases (is_quote byte)) [
      | inl q ↦ rw q string
      | inr q ↦ elim (Bool-cases (opens byte)) [
        | inl o ↦ rw (q, o) (ground (arith, deeper))
        | inr o ↦ elim (Bool-cases (closes byte)) [
          | inl c ↦ rw (q, o, c) higher
          | inr c ↦ rw (q, o, c) same
        ]
      ]
    ]
scan_within_limit-nesting m inside d (byte ∷ bytes) =
    let escape = scan_within_limit-nesting m after_backslash d bytes in
    let end = scan_within_limit-nesting m outside d bytes in
    let same = scan_within_limit-nesting m inside d bytes in
    elim (Bool-cases (is_backslash byte)) [
      | inl b ↦ rw b escape
      | inr b ↦ elim (Bool-cases (is_quote byte)) [ inl q ↦ rw (b, q) end | inr q ↦ rw (b, q) same ]
    ]
scan_within_limit-nesting m after_backslash d (byte ∷ bytes) =
    scan_within_limit-nesting m inside d bytes

-- The scan accepts a payload exactly where its deepest nesting outside strings is within the limit.
pub json_depth_within_limit-nesting :
    (payload : List ℕ) (max_depth : ℕ)
    → json_depth_within_limit payload max_depth ≡ leb (nesting outside 0 payload) max_depth
unfolding json_depth_within_limit
json_depth_within_limit-nesting payload max_depth =
    scan_within_limit-nesting max_depth outside 0 payload
