-- ===== src/Weather/Selection.antt =====
-- Which alert is shown.
use esp32_monitor.Base.{
  ◌<◌, ◌≤◌, ◌≡◌, refl, ap, ◌⊎◌, inl, inr, Bool-cases, Option, none, some, List, [], ◌∷◌, ◌++◌, ltb,
  All, arith,
}
use esp32_monitor.Weather.Parser.{Candidate, select, select_all}

-- An entry that is passed over, or that has a lower priority, or no higher one.
abbrev pub IsPassed : Option Candidate → Type 0
IsPassed entry = entry ≡ none

abbrev pub Below : Candidate → Option Candidate → Type 0
Below selected none = Unit
Below selected (some entry) = entry.priority < selected.priority

abbrev pub AtMost : Candidate → Option Candidate → Type 0
AtMost selected none = Unit
AtMost selected (some entry) = entry.priority ≤ selected.priority

-- It stands among the entries, the first of the highest priority.
pub record IsFirstHighest (entries : List (Option Candidate)) (selected : Candidate) : Type 0 where
  pub before : List (Option Candidate)
  pub after : List (Option Candidate)
  pub stands : entries ≡ before ++ some selected ∷ after
  pub lower : All (Below selected) before
  pub no_higher : All (AtMost selected) after

abbrev pub IsSelected : List (Option Candidate) → Option Candidate → Type 0
IsSelected entries none = All IsPassed entries
IsSelected entries (some selected) = IsFirstHighest entries selected

-- With `first` selected before the entries: it stays, or a higher one replaces it.
Replaces : Candidate → List (Option Candidate) → Candidate → Type 0
Replaces first entries selected =
    ((selected ≡ first) × All (AtMost first) entries)
    ⊎ (IsFirstHighest entries selected × (first.priority < selected.priority))

Below-of :
    (first selected : Candidate) (entry : Option Candidate)
    → AtMost first entry
    → first.priority < selected.priority
    → Below selected entry
Below-of first selected none low lt = tt
Below-of first selected (some entry) low lt = omega arith

further :
    (entry : Option Candidate) (entries : List (Option Candidate)) (selected : Candidate)
    → Below selected entry
    → IsFirstHighest entries selected
    → IsFirstHighest (entry ∷ entries) selected
further entry entries selected low h = record {
  before = entry ∷ h.before;
  after = h.after;
  stands = ap (λ l. entry ∷ l) h.stands;
  lower = (low, h.lower);
  no_higher = h.no_higher;
}

at_front :
    (entry : Candidate) (entries : List (Option Candidate))
    → All (AtMost entry) entries
    → IsFirstHighest (some entry ∷ entries) entry
at_front entry entries rest = record {
  before = [];
  after = entries;
  stands = refl;
  lower = tt;
  no_higher = rest;
}

passed :
    (first : Candidate) (entry : Option Candidate) (entries : List (Option Candidate))
    (selected : Candidate)
    → AtMost first entry
    → Replaces first entries selected
    → Replaces first (entry ∷ entries) selected
unfolding Replaces
passed first entry entries selected low (inl (same, rest)) = inl (same, (low, rest))
passed first entry entries selected low (inr (h, lt)) =
    inr (further entry entries selected (Below-of first selected entry low lt) h, lt)

replaced :
    (first entry : Candidate) (entries : List (Option Candidate)) (selected : Candidate)
    → first.priority < entry.priority
    → Replaces entry entries selected
    → Replaces first (some entry ∷ entries) selected
unfolding Replaces
replaced first entry entries selected lt (inl (same, rest)) =
    inr (rw same (at_front entry entries rest), rw same lt)
replaced first entry entries selected lt (inr (h, lt')) =
    inr (further (some entry) entries selected lt' h, omega arith)

select_all_from :
    (first : Candidate) (entries : List (Option Candidate))
    → (selected : Candidate) × (select_all (some first) entries ≡ some selected)
      × Replaces first entries selected
unfolding select_all select Replaces
select_all_from first [] = (first, refl, inl (refl, tt))
select_all_from first (none ∷ entries) =
    let (selected, e, r) = select_all_from first entries in
    (selected, e, passed first none entries selected tt r)
select_all_from first (some entry ∷ entries) =
    elim (Bool-cases (ltb first.priority entry.priority)) [
      | inl lt ↦
          let (selected, e, r) = select_all_from entry entries in
          (selected, rw lt e, replaced first entry entries selected (ground arith) r)
      | inr ge ↦
          let (selected, e, r) = select_all_from first entries in
          (selected, rw ge e, passed first (some entry) entries selected (ground arith) r)
    ]

from_front :
    (first : Candidate) (entries : List (Option Candidate)) (selected : Candidate)
    → Replaces first entries selected
    → IsFirstHighest (some first ∷ entries) selected
unfolding Replaces
from_front first entries selected (inl (same, rest)) = rw same (at_front first entries rest)
from_front first entries selected (inr (h, lt)) = further (some first) entries selected lt h

none_first :
    (entries : List (Option Candidate)) (selected : Option Candidate)
    → IsSelected entries selected
    → IsSelected (none ∷ entries) selected
none_first entries none h = (refl, h)
none_first entries (some selected) h = further none entries selected tt h

-- Of the entries that count the loop selects the first of the highest priority: every one before it
-- has a lower priority and every one behind it has no higher one. It selects none exactly where
-- none counts.
pub select_all-IsSelected :
    (entries : List (Option Candidate)) → IsSelected entries (select_all none entries)
unfolding select_all select
select_all-IsSelected [] = tt
select_all-IsSelected (none ∷ entries) =
    none_first entries (select_all none entries) (select_all-IsSelected entries)
select_all-IsSelected (some first ∷ entries) =
    let (selected, e, r) = select_all_from first entries in
    rw e (from_front first entries selected r)
