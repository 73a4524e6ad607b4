-- ===== src/Market/Parser.antt =====
-- components/market/market_parser.c: the answers of the two exchanges. What the code takes from the
-- C library on floating-point numbers is the record Reals.
use esp32_monitor.Base.{
  ℕ, zero, suc, ◌^◌, Bool, false, not, ◌&&◌, ◌||◌, Option, none, some, List, [], ◌∷◌, ℤ, pos,
  negsuc, ltb, leb, ◌==◌, ◌!=◌, if◌then◌else◌, length, get_or, same_bytes, bounded, text, bit_and,
  bit_or,
}
use esp32_monitor.Base.Options.{◌>>=◌, ◌>>◌, require}
use esp32_monitor.Json.{
  Double, Cjson, is_below_zero, is_above, is_below_minus, is_blank, get_item, as_number, as_string,
  as_array, whole_object,
}
use esp32_monitor.AppModel.{MarketIndex, MarketState}

-- llround(x * 100.0) and lround(x * 100.0), and strtod: the number, the offset of its end and
-- errno. A NaN is not finite.
pub record Reals : Type 0 where
  pub llround_x100 : Double → ℤ
  pub lround_x100 : Double → ℤ
  pub strtod : List ℕ → Double × ℕ × ℕ

-- Whether an integer is one of `width + 1` bits.
abbrev pub fits_signed : ℕ → ℤ → Bool
fits_signed width (pos n) = ltb n (2 ^ width)
fits_signed width (negsuc n) = ltb n (2 ^ width)

-- The offset, or -1.
unfoldable pub slot_for_sse_code : List ℕ → Option ℕ
slot_for_sse_code code =
    if same_bytes code (text "000001")
    then some 0
    else if same_bytes code (text "000688")
    then some 3
    else if same_bytes code (text "000300")
    then some 4
    else if same_bytes code (text "000905")
    then some 5
    else none

-- The names in UTF-8.
abbrev pub names : List (List ℕ)
names =
    (228 ∷ 184 ∷ 138 ∷ 232 ∷ 175 ∷ 129 ∷ 231 ∷ 187 ∷ 188 ∷ 230 ∷ 140 ∷ 135 ∷ [])
    ∷ (230 ∷ 183 ∷ 177 ∷ 232 ∷ 175 ∷ 129 ∷ 230 ∷ 136 ∷ 144 ∷ 230 ∷ 140 ∷ 135 ∷ [])
    ∷ (229 ∷ 136 ∷ 155 ∷ 228 ∷ 184 ∷ 154 ∷ 230 ∷ 157 ∷ 191 ∷ 230 ∷ 140 ∷ 135 ∷ [])
    ∷ (231 ∷ 167 ∷ 145 ∷ 229 ∷ 136 ∷ 155 ∷ 53 ∷ 48 ∷ [])
    ∷ (230 ∷ 178 ∷ 170 ∷ 230 ∷ 183 ∷ 177 ∷ 51 ∷ 48 ∷ 48 ∷ [])
    ∷ (228 ∷ 184 ∷ 173 ∷ 232 ∷ 175 ∷ 129 ∷ 53 ∷ 48 ∷ 48 ∷ [])
    ∷ []

unfoldable pub display_name_for_slot : ℕ → List ℕ
display_name_for_slot slot = get_or names slot []

module _ {A : Type 0} where
  -- cJSON_GetArrayItem.
  abbrev pub get_elem? : List A → ℕ → Option A
  get_elem? [] i = none
  get_elem? (x ∷ xs) zero = some x
  get_elem? (x ∷ xs) (suc i) = get_elem? xs i

  -- A write into an array.
  abbrev pub set : List A → ℕ → A → List A
  set [] i v = []
  set (x ∷ xs) zero v = v ∷ xs
  set (x ∷ xs) (suc i) v = x ∷ set xs i v

-- The loop at the end of the bytes.
unfoldable pub trim_end : List ℕ → List ℕ
trim_end [] = []
trim_end (byte ∷ bytes) =
    let rest = trim_end bytes in if is_blank byte && length rest == 0 then [] else byte ∷ rest

abbrev pub accepted_number : List ℕ → Double × ℕ × ℕ → Option Double
accepted_number digits (parsed, end, errno) =
    if errno != 0 || end == 0 || get_or digits end 0 != 0 || not parsed.finite
    then none
    else some parsed

-- The entry of one index, written when its values are accepted.
abbrev pub index_of : List ℕ → List ℕ → ℤ × ℤ → MarketIndex
index_of name code (points, change) = record {
  index_name = bounded 20 name;
  index_code = bounded 8 code;
  points_x100 = points;
  change_basis_points = change;
}

abbrev pub store_index : Option (ℕ × MarketIndex) → List MarketIndex × ℕ → List MarketIndex × ℕ
store_index none (indices, found_mask) = (indices, found_mask)
store_index (some (slot, index)) (indices, found_mask) =
    (set indices slot index, bit_or found_mask (2 ^ slot))

abbrev pub is_out_of_range : Double → Double → Bool
is_out_of_range points change_percent =
    not points.finite
    || not change_percent.finite
    || is_below_zero points
    || is_above points 10000000
    || is_below_minus change_percent 100
    || is_above change_percent 100

module _ (reals : Reals) where
  -- The two values, where it returns true.
  unfoldable pub convert_values : Double → Double → Option (ℤ × ℤ)
  convert_values points change_percent =
      let scaled_points = reals.llround_x100 points in
      let scaled_change = reals.lround_x100 change_percent in
      if is_out_of_range points change_percent
      then none
      else if not (fits_signed 31 scaled_points) || not (fits_signed 15 scaled_change)
      then none
      else some (scaled_points, scaled_change)

  unfoldable pub parse_decimal_text : List ℕ → Option Double
  parse_decimal_text digits =
      if length digits == 0 then none else accepted_number digits (reals.strtod digits)

  -- The slot of an entry of the list, and what is written there.
  abbrev pub sse_index : Double → Double → List ℕ → Option (ℕ × MarketIndex)
  sse_index points change code = do
    slot ← slot_for_sse_code code
    values ← convert_values points change
    some (slot, index_of (display_name_for_slot slot) code values)

  module _ {Node : Type 0} (cjson : Cjson Node) where
    abbrev pub parse_root : List ℕ → Option Node
    parse_root json = if length json == 0 then none else whole_object cjson json (cjson.parse json)

    unfoldable pub sse_entry : Node → Option (ℕ × MarketIndex)
    sse_entry entry = do
      fields ← as_array cjson (some entry)
      require (leb 5 (length fields))
      points ← as_number cjson (get_elem? fields 1)
      change ← as_number cjson (get_elem? fields 2)
      code ← as_string cjson (get_elem? fields 3)
      sse_index points change code

    -- cJSON_ArrayForEach, with the entries written and found_mask.
    unfoldable pub sse_entries : List Node → List MarketIndex × ℕ → List MarketIndex × ℕ
    sse_entries [] found = found
    sse_entries (entry ∷ entries) found = sse_entries entries (store_index (sse_entry entry) found)

    abbrev pub required_mask : ℕ
    required_mask = 57

    abbrev pub sse_list : Option (List Node) → MarketState → MarketState × Bool
    sse_list none state = (state, false)
    sse_list (some entries) state =
        let found = sse_entries entries (state.indices, 0) in
        (record state { indices = found.0 }, bit_and found.1 required_mask == required_mask)

    -- The state after it, which an entry may have changed on failure too, and the result.
    unfoldable pub parse_sse : List ℕ → MarketState → MarketState × Bool
    parse_sse json state =
        sse_list (as_array cjson (get_item cjson (parse_root json) (text "list"))) state
