-- ===== src/Market/Sse.antt =====
-- What a successful answer of the Shanghai exchange leaves in the market state.
use esp32_monitor.Base.{
  ℕ, ◌<◌, ◌^◌, ◌≡◌, refl, ◌∙◌, Bool, true, Option, none, some, List, [], ◌∷◌, leb, length, get_or,
  bit, bit_or, bit-bit_or, bit-power_ne, bit-zero, arith,
}
use esp32_monitor.Base.Options.{Every, >>=-Every, any-Every, require-Every}
use native.Mathlib.Decide.{ℕ_discrete}
use esp32_monitor.Json.{Double, Cjson, as_number, as_string, as_array}
use esp32_monitor.AppModel.{MarketIndex, MarketState}
use esp32_monitor.AppModel.{no_index}
use esp32_monitor.Market.Slots.{
  IsSlot, IsIndexOf, IsEntry, sse_code, Fitting, slot_for_sse_code-IsSlot, convert_values-Fitting,
  index_of-IsIndexOf, slot-ne-one, slot-ne-two, slot-lt-six, found_bit, length-set, get_or-set_self,
  get_or-set_ne,
}
use esp32_monitor.Market.Parser.{
  Reals, slot_for_sse_code, convert_values, sse_index, store_index, sse_entry, sse_entries,
  parse_sse, get_elem?, set, sse_list,
}

-- The slot has got its bit, and only then its index need be there.
abbrev Filled : List MarketIndex × ℕ → ℕ → Type 0
Filled (indices, found_mask) slot =
    bit found_mask slot ≡ 1 → IsIndexOf slot (get_or indices slot no_index)

-- What holds of the entries and the mask through the loop, from these indices on.
record IsScanned (before : List MarketIndex) (found : List MarketIndex × ℕ) : Type 0 where
  six : length found.0 ≡ 6
  filled : (slot : ℕ) → Filled found slot
  first_kept : get_or found.0 1 no_index ≡ get_or before 1 no_index
  second_kept : get_or found.0 2 no_index ≡ get_or before 2 no_index

stored-Filled :
    {before : List MarketIndex} (slot : ℕ) (index : MarketIndex) (indices : List MarketIndex)
    (found_mask i : ℕ)
    → IsEntry (slot, index)
    → slot < 6
    → IsScanned before (indices, found_mask)
    → Filled (set indices slot index, bit_or found_mask (2 ^ slot)) i
stored-Filled slot index indices found_mask i e below s = elim (ℕ_discrete slot i) [
  | yes same ↦
      λ _. rw (← same, get_or-set_self indices slot index no_index (omega (arith, s.six))) e.1
  | no differ ↦ λ set_bit. rw (get_or-set_ne indices slot i index no_index differ) (
      s.filled i
        (omega (arith, set_bit, bit-bit_or found_mask (2 ^ slot) i, bit-power_ne slot i differ)))
]

-- The state in which a call of the parser leaves `before`, with its result.
abbrev pub IsParsed : MarketState → MarketState × Bool → Type 0
IsParsed before (after, result) =
    (length after.indices ≡ 6)
    × (get_or after.indices 1 no_index ≡ get_or before.indices 1 no_index)
    × (get_or after.indices 2 no_index ≡ get_or before.indices 2 no_index)
    × (result ≡ true
        → (slot : ℕ) → IsSlot slot
        → IsIndexOf slot (get_or after.indices slot no_index))

module _ (reals : Reals) where
  sse_index-IsEntry :
      (points change : Double) (code : List ℕ) → Every IsEntry (sse_index reals points change code)
  sse_index-IsEntry points change code =
      >>=-Every (λ slot. IsSlot slot × (code ≡ sse_code slot)) IsEntry (slot_for_sse_code code) _
        (slot_for_sse_code-IsSlot code)
        λ slot at.
          >>=-Every Fitting IsEntry (convert_values reals points change) _
            (convert_values-Fitting reals points change)
            (λ values f. (at.0, index_of-IsIndexOf slot code values at.0 at.1 f))

  store_index-IsScanned :
      (before : List MarketIndex) (entry : Option (ℕ × MarketIndex)) (found : List MarketIndex × ℕ)
      → Every IsEntry entry
      → IsScanned before found
      → IsScanned before (store_index entry found)
  store_index-IsScanned before none (indices, found_mask) e s = s
  store_index-IsScanned before (some (slot, index)) (indices, found_mask) e s = record {
    six = length-set indices slot index ∙ s.six;
    filled = λ i. stored-Filled slot index indices found_mask i e (slot-lt-six e.0) s;
    first_kept = get_or-set_ne indices slot 1 index no_index (slot-ne-one e.0) ∙ s.first_kept;
    second_kept = get_or-set_ne indices slot 2 index no_index (slot-ne-two e.0) ∙ s.second_kept;
  }

  module _ {Node : Type 0} (cjson : Cjson Node) where
    sse_entry-IsEntry : (entry : Node) → Every IsEntry (sse_entry reals cjson entry)
    unfolding sse_entry
    sse_entry-IsEntry entry =
        >>=-Every (λ (l : List Node). Unit {0}) IsEntry (as_array cjson (some entry)) _
          (any-Every _)
          λ fields u. require-Every IsEntry (leb 5 (length fields)) _ λ _.
            >>=-Every (λ (d : Double). Unit {0}) IsEntry (as_number cjson (get_elem? fields 1)) _
              (any-Every _)
              λ points u.
                >>=-Every (λ (d : Double). Unit {0}) IsEntry (as_number cjson (get_elem? fields 2))
                  _ (any-Every _)
                  λ change u.
                    >>=-Every (λ (l : List ℕ). Unit {0}) IsEntry
                      (as_string cjson (get_elem? fields 3)) _ (any-Every _)
                      (λ code u. sse_index-IsEntry points change code)

    sse_entries-IsScanned :
        (before : List MarketIndex) (entries : List Node) (found : List MarketIndex × ℕ)
        → IsScanned before found
        → IsScanned before (sse_entries reals cjson entries found)
    unfolding sse_entries
    sse_entries-IsScanned before [] found s = s
    sse_entries-IsScanned before (entry ∷ entries) found s =
        sse_entries-IsScanned before entries _
          (store_index-IsScanned before _ found (sse_entry-IsEntry entry) s)

    sse_list-IsParsed :
        (entries : Option (List Node)) (state : MarketState)
        → length state.indices ≡ 6
        → IsParsed state (sse_list reals cjson entries state)
    sse_list-IsParsed none state h = (h, refl, refl, λ e. cc)
    sse_list-IsParsed (some entries) state h =
        let start : IsScanned state.indices (state.indices, 0) = record {
          six = h;
          filled = λ i e. absurd (omega (arith, bit-zero i));
          first_kept = refl;
          second_kept = refl;
        } in
        let s : IsScanned state.indices (sse_entries reals cjson entries (state.indices, 0)) =
          sse_entries-IsScanned state.indices entries _ start in
        (s.six, s.first_kept, s.second_kept, λ e slot at. s.filled slot (found_bit _ e at))

    -- Whatever the answer is, the Shanghai parser leaves six indices of six and does not touch those
    -- of the Shenzhen exchange, 1 and 2; and where it returns true, each of the slots 0, 3, 4 and 5
    -- holds the index of that slot: its display name, its code, points of 32 bits and a change of
    -- 16 bits.
    pub parse_sse-IsParsed :
        (json : List ℕ) (state : MarketState)
        → length state.indices ≡ 6
        → IsParsed state (parse_sse reals cjson json state)
    unfolding parse_sse
    parse_sse-IsParsed json state h = sse_list-IsParsed _ state h
