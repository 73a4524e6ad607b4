-- ===== src/Market/Whole.antt =====
-- A refresh of the market is all or nothing.
use esp32_monitor.Base.{
  ℕ, ◌<◌, ◌≡◌, ◌≢◌, refl, ◌∙◌, Bool, true, false, Option, none, some, List, ℤ, leb, if_cases,
  length, sym, get_or, same_bytes, text, arith, ◌+◌, take, drop, take_all,
}
use esp32_monitor.Base.Options.{Every, >>=-Every, bind-Every, require-Every}
use esp32_monitor.Esp.{EspErr, is_esp_ok}
use esp32_monitor.Json.{Cjson}
use esp32_monitor.AppModel.{MarketIndex, MarketState, no_index}
use esp32_monitor.HttpFetch.{Client, Inflater, http_get_json}
use esp32_monitor.Worker.{and_then}
use esp32_monitor.Market.Tokens.{find_token, skip_blanks, read_bounded_string}
use esp32_monitor.Market.Parser.{
  Reals, fits_signed, convert_values, parse_decimal_text, index_of, parse_sse, trim_end,
}
use esp32_monitor.Market.Slots.{
  IsSlot, IsIndexOf, Fitting, convert_values-Fitting, slot-ne-one, slot-ne-two, length-set,
  get_or-set_self, get_or-set_ne,
}
use esp32_monitor.Market.Sse.{IsParsed, parse_sse-IsParsed}
use esp32_monitor.Market.Szse.{read_section, parse_szse, skip_to_brace, is_braced}
use esp32_monitor.Market.Task.{
  Round, parsed_market, write_slot, szse_url, fetch_sse, fetch_szse, finish_market, refresh_market,
  component_name, chinext_name, fetch_component, fetch_chinext, then_component, then_chinext,
}

-- The index has this name and code, and values in the range of their types.
pub record IsQuote (name code : List ℕ) (index : MarketIndex) : Type 0 where
  pub named : index.index_name ≡ name
  pub coded : index.index_code ≡ code
  pub points_fit : fits_signed 31 index.points_x100 ≡ true
  pub change_fits : fits_signed 15 index.change_basis_points ≡ true

abbrev pub HasShanghai : MarketState → Type 0
HasShanghai market = (slot : ℕ) → IsSlot slot → IsIndexOf slot (get_or market.indices slot no_index)

abbrev pub HasComponent : MarketState → Type 0
HasComponent market = IsQuote component_name (text "399001") (get_or market.indices 1 no_index)

abbrev pub HasChinext : MarketState → Type 0
HasChinext market = IsQuote chinext_name (text "399006") (get_or market.indices 2 no_index)

-- A market with all its six indices.
pub record IsWhole (market : MarketState) : Type 0 where
  pub is_valid : market.market_valid ≡ true
  pub shanghai_indices : HasShanghai market
  pub component_index : HasComponent market
  pub chinext_index : HasChinext market

-- There are six indices, and P holds where the result is esp_ok.
abbrev pub Leaves : (MarketState → Type 0) → MarketState × EspErr → Type 0
Leaves P (market, result) = (length market.indices ≡ 6) × (is_esp_ok result ≡ true → P market)

and_then-Leaves :
    (P Q : MarketState → Type 0) (m : MarketState × EspErr)
    (next : MarketState → MarketState × EspErr)
    → Leaves P m
    → ((market : MarketState) → length market.indices ≡ 6 → P market → Leaves Q (next market))
    → Leaves Q (and_then m next)
and_then-Leaves P Q (market, result) next h k =
    if_cases (Leaves Q) (is_esp_ok result) (λ e. k market h.0 (h.1 e)) (λ e. (h.0, λ e'. cc))

-- A name and a code that fit their arrays.
abbrev Stored : List ℕ → List ℕ → Type 0
Stored name code = (length name < 20) × (length code < 8)

index_of-IsQuote :
    (name code : List ℕ) (values : ℤ × ℤ)
    → Stored name code
    → Fitting values
    → IsQuote name code (index_of name code values)
index_of-IsQuote name code values s f = record {
  named = take_all 19 name (omega (arith, s.0));
  coded = take_all 7 code (omega (arith, s.1));
  points_fit = f.0;
  change_fits = f.1;
}

module _ (reals : Reals) (code name : List ℕ) (stored : Stored name code) where
  read_section-IsQuote :
      (section : List ℕ) → Every (IsQuote name code) (read_section reals section code name)
  unfolding read_section
  read_section-IsQuote section =
      let P : Option MarketIndex → Type 0 = Every (IsQuote name code) in
      bind-Every (IsQuote name code) (read_bounded_string section (text "code") 8) _ λ found.
        require-Every (IsQuote name code) (same_bytes found code) _ λ _.
          bind-Every (IsQuote name code) (read_bounded_string section (text "now") 32) _ λ now.
            bind-Every (IsQuote name code) (read_bounded_string section (text "deltaPercent") 32) _
              λ change. bind-Every (IsQuote name code) (parse_decimal_text reals now) _ λ points.
                bind-Every (IsQuote name code) (parse_decimal_text reals change) _ λ percent.
                  >>=-Every Fitting (IsQuote name code) (convert_values reals points percent) _
                    (convert_values-Fitting reals points percent)
                    (λ values f. index_of-IsQuote name code values stored f)

  parse_szse-IsQuote : (json : List ℕ) → Every (IsQuote name code) (parse_szse reals json code name)
  unfolding parse_szse
  parse_szse-IsQuote json =
      let trimmed : List ℕ = trim_end (skip_blanks json) in
      require-Every (IsQuote name code) (is_braced trimmed) _ λ _.
        bind-Every (IsQuote name code) (find_token trimmed (text "\"data\"")) _ λ at.
          bind-Every (IsQuote name code) (read_bounded_string (take at trimmed) (text "code") 8) _
            λ status. require-Every (IsQuote name code) (same_bytes status (text "0")) _ λ _.
              bind-Every (IsQuote name code) (skip_to_brace (drop (at + 6) trimmed)) _
                (λ section. read_section-IsQuote _)

module _ (inflater : Inflater) (reals : Reals) {Node : Type 0} (cjson : Cjson Node) where
  parsed_market-Leaves :
      (before : MarketState) (m : MarketState × Bool)
      → IsParsed before m
      → Leaves HasShanghai (parsed_market m)
  unfolding is_esp_ok
  parsed_market-Leaves before (market, true) h = (h.0, λ e. h.3 refl)
  parsed_market-Leaves before (market, false) h = (h.0, λ e. cc)

  fetch_sse-Leaves :
      (client : Client) (market : MarketState)
      → length market.indices ≡ 6
      → Leaves HasShanghai (fetch_sse inflater reals cjson client market)
  unfolding fetch_sse
  fetch_sse-Leaves client market six =
      let answer : EspErr × List ℕ = http_get_json client inflater 8192 in
      if_cases (Leaves HasShanghai) (is_esp_ok answer.0)
        (λ e.
          parsed_market-Leaves market (parse_sse reals cjson answer.1 market)
            (parse_sse-IsParsed reals cjson answer.1 market six))
        (λ e. (six, λ e'. cc))

  -- A slot that is written, with the other slots kept.
  abbrev Writes : ℕ → List ℕ → List ℕ → MarketState → MarketState → Type 0
  Writes slot name code before after =
      IsQuote name code (get_or after.indices slot no_index)
      × ((other : ℕ)
          → slot ≢ other
          → get_or after.indices other no_index ≡ get_or before.indices other no_index)

  write_slot-Leaves :
      (slot : ℕ) (name code : List ℕ) (market : MarketState) (index : Option MarketIndex)
      → slot < 6
      → length market.indices ≡ 6
      → Every (IsQuote name code) index
      → Leaves (Writes slot name code market) (write_slot slot market index)
  unfolding is_esp_ok
  write_slot-Leaves slot name code market none below six q = (six, λ e. cc)
  write_slot-Leaves slot name code market (some index) below six q = (
    length-set market.indices slot index ∙ six,
    λ e. (
      rw (get_or-set_self market.indices slot index no_index (omega arith)) q,
      λ other differ. get_or-set_ne market.indices slot other index no_index differ,
    ),
  )

  fetch_szse-Leaves :
      (client : Client) (now : ℕ) (code name : List ℕ) (slot : ℕ) (market : MarketState)
      → Stored name code
      → slot < 6
      → length market.indices ≡ 6
      → Leaves
          (Writes slot name code market)
          (fetch_szse inflater reals cjson client now code name slot market)
  unfolding fetch_szse is_esp_ok
  fetch_szse-Leaves client now code name slot market stored below six =
      let answer : EspErr × List ℕ = http_get_json client inflater 49152 in
      let P : MarketState × EspErr → Type 0 = Leaves (Writes slot name code market) in
      if_cases P (leb 256 (length (szse_url code now))) (λ _. (six, λ e. cc))
        λ _.
          if_cases P (is_esp_ok answer.0)
            (λ _.
              write_slot-Leaves slot name code market (parse_szse reals answer.1 code name) below
                six (parse_szse-IsQuote reals code name stored answer.1))
            (λ e. (six, λ e'. cc))

  fetch_component-Leaves :
      (round : Round) (market : MarketState)
      → length market.indices ≡ 6
      → Leaves
          (Writes 1 component_name (text "399001") market)
          (fetch_component inflater reals cjson round market)
  fetch_component-Leaves round market six =
      fetch_szse-Leaves round.component_client round.component_at (text "399001") component_name 1
        market (omega arith, omega arith) (omega arith) six

  fetch_chinext-Leaves :
      (round : Round) (market : MarketState)
      → length market.indices ≡ 6
      → Leaves
          (Writes 2 chinext_name (text "399006") market)
          (fetch_chinext inflater reals cjson round market)
  fetch_chinext-Leaves round market six =
      fetch_szse-Leaves round.chinext_client round.chinext_at (text "399006") chinext_name 2 market
        (omega arith, omega arith) (omega arith) six

  IsWhole-of :
      (round : Round) (s1 s2 s3 : MarketState)
      → HasShanghai s1
      → Writes 1 component_name (text "399001") s1 s2
      → Writes 2 chinext_name (text "399006") s2 s3
      → IsWhole (finish_market round s3).0
  IsWhole-of round s1 s2 s3 h1 w2 w3 = record {
    is_valid = refl;
    shanghai_indices = λ slot at.
        rw (w3.1 slot (λ e. slot-ne-two at (sym e)), w2.1 slot (λ e. slot-ne-one at (sym e)))
          (h1 slot at);
    component_index = rw (w3.1 1 (λ e. absurd (omega arith))) w2.0;
    chinext_index = w3.0;
  }

  -- Whatever the exchanges answer, a refresh of a market with six indices leaves six; and where it
  -- succeeds the market is valid and has, in each slot, the name and the code of the slot, points
  -- of 32 bits and a change of 16 bits.
  pub refresh_market-IsWhole :
      (round : Round) (market : MarketState)
      → length market.indices ≡ 6
      → Leaves IsWhole (refresh_market inflater reals cjson round market)
  unfolding refresh_market
  refresh_market-IsWhole round market six =
      and_then-Leaves HasShanghai IsWhole (fetch_sse inflater reals cjson round.sse_client market)
        (then_component inflater reals cjson round) (fetch_sse-Leaves round.sse_client market six)
        λ s1 six1 h1.
          and_then-Leaves (Writes 1 component_name (text "399001") s1) IsWhole
            (fetch_component inflater reals cjson round s1)
            (then_chinext inflater reals cjson round) (fetch_component-Leaves round s1 six1)
            λ s2 six2 w2.
              and_then-Leaves (Writes 2 chinext_name (text "399006") s2) IsWhole
                (fetch_chinext inflater reals cjson round s2) (finish_market round)
                (fetch_chinext-Leaves round s2 six2)
                (λ s3 six3 w3. (six3, λ e. IsWhole-of round s1 s2 s3 h1 w2 w3))
