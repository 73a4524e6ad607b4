-- ===== src/Weather/Titles.antt =====
-- How copy_utf8 cuts a text that does not fit.
use esp32_monitor.Base.{
  ℕ, zero, suc, ◌-◌, ◌<◌, ◌≤◌, ◌≡◌, refl, sym, ◌⊎◌, inl, inr, true, false, List, [], ◌∷◌, leb, ◌==◌,
  if_cases, length, get_or, take, take_all, length-take, arith,
}
use native.Mathlib.Decide.{dec_lt}
use esp32_monitor.Weather.Values.{is_continuation, cut_length, copy_utf8}

-- The length is 0, or the byte behind it starts a character or is past the end; and up to `limit` no
-- longer one is so.
record IsCut (source : List ℕ) (limit length : ℕ) : Type 0 where
  within : length ≤ limit
  starts : (length ≡ 0) ⊎ (is_continuation (get_or source length 0) ≡ false)
  longest : (k : ℕ) → length < k → k ≤ limit → is_continuation (get_or source k 0) ≡ true

one_less :
    (source : List ℕ) (limit cut : ℕ)
    → is_continuation (get_or source (suc limit) 0) ≡ true
    → IsCut source limit cut
    → IsCut source (suc limit) cut
one_less source limit cut e h = record {
  within = omega (arith, h.within);
  starts = h.starts;
  longest = λ k a b. elim (dec_lt limit k) [
    | yes lt ↦ let at : k ≡ suc limit = omega arith in rw at e
    | no le ↦ h.longest k a (omega arith)
  ];
}

cut_length-IsCut : (source : List ℕ) (limit : ℕ) → IsCut source limit (cut_length source limit)
unfolding cut_length
cut_length-IsCut source zero = record {
  within = omega arith;
  starts = inl refl;
  longest = λ k a b. absurd (omega arith);
}
cut_length-IsCut source (suc limit) =
    let P : ℕ → Type 0 = IsCut source (suc limit) in
    if_cases P (is_continuation (get_or source (suc limit) 0))
      (λ e. one_less source limit (cut_length source limit) e (cut_length-IsCut source limit))
      (λ e. record {
        within = omega arith;
        starts = inr e;
        longest = λ k a b. absurd (omega arith);
      })

-- A copy of a text: a prefix, with room for the terminator, that ends where a character starts.
pub record IsCopy (capacity : ℕ) (source copy : List ℕ) : Type 0 where
  pub prefix : copy ≡ take (length copy) source
  pub fits : length copy < capacity
  pub ends : (length copy ≡ 0) ⊎ (is_continuation (get_or source (length copy) 0) ≡ false)
  pub longest_copy :
      (k : ℕ)
      → length copy < k
      → k < capacity
      → k ≤ length source
      → is_continuation (get_or source k 0) ≡ true

get_or_end : (source : List ℕ) → get_or source (length source) 0 ≡ 0
get_or_end [] = refl
get_or_end (byte ∷ source) = get_or_end source

IsCopy-take :
    (capacity : ℕ) (source : List ℕ)
    → 0 < capacity
    → capacity ≤ length source
    → (cut : ℕ) → IsCut source (capacity - 1) cut
    → IsCopy capacity source (take cut source)
IsCopy-take capacity source room long cut h =
    let size : length (take cut source) ≡ cut = omega (arith, length-take cut source, h.within) in
    record {
      prefix = rw size refl;
      fits = omega (arith, h.within);
      ends = rw size h.starts;
      longest_copy = λ k a b c. h.longest k (omega arith) (omega arith);
    }

-- In an array of at least one byte copy_utf8 puts a prefix of the source that leaves room for the
-- terminator and ends between two characters of UTF-8, or is empty; and it is the longest such
-- prefix: every longer one with room ends inside a character.
pub copy_utf8-IsCopy :
    (capacity : ℕ) (source : List ℕ)
    → 0 < capacity
    → IsCopy capacity source (copy_utf8 capacity source)
unfolding copy_utf8
copy_utf8-IsCopy capacity source room =
    if_cases (IsCopy capacity source) (capacity == 0) (λ e. absurd (ground arith))
      λ _.
        if_cases (IsCopy capacity source) (leb capacity (length source))
          (λ e.
            IsCopy-take capacity source room (ground arith) _
              (cut_length-IsCut source (capacity - 1)))
          (λ e. record {
            prefix = sym (take_all (length source) source (omega arith));
            fits = ground arith;
            ends = inr (rw (get_or_end source) refl);
            longest_copy = λ k a b c. absurd (omega arith);
          })
