-- ===== src/Storage/LogPolicy.antt =====
-- components/storage/log_policy.c. A buffer of char is the string in it.
use esp32_monitor.Base.{
  ℕ, zero, suc, ◌+◌, ◌-◌, ◌/◌, ◌%◌, Bool, true, Option, none, some, List, [], ◌∷◌, ◌++◌, ◌||◌, ltb,
  leb, ◌==◌, if◌then◌else◌, length, take, replicate, text,
}

abbrev pub valid_clock_minimum_epoch : ℕ
valid_clock_minimum_epoch = 1735689600

abbrev pub bucket_key_size : ℕ
bucket_key_size = 16

pub data ContentClass : Type 0 where
  content_public content_private : ContentClass

abbrev pub marker : List ℕ
marker = text "[private event omitted]"

abbrev pub is_control : ℕ → Bool
is_control byte = ltb byte 0x20 || byte == 0x7F

abbrev pub normal_byte : ℕ → ℕ
normal_byte byte = if is_control byte then 32 else byte

-- The loop, with room for so many bytes before the terminator.
unfoldable pub normalize_bytes : ℕ → List ℕ → List ℕ
normalize_bytes zero input = []
normalize_bytes (suc room) [] = []
normalize_bytes (suc room) (byte ∷ input) = normal_byte byte ∷ normalize_bytes room input

-- The string that is left in an output of at least one byte.
unfoldable pub normalize_message : ContentClass → Option (List ℕ) → ℕ → List ℕ
normalize_message content_private input capacity =
    take (if ltb (length marker) (capacity - 1) then length marker else capacity - 1) marker
normalize_message content_public none capacity = []
normalize_message content_public (some input) capacity = normalize_bytes (capacity - 1) input

unfoldable pub should_rotate : ℕ → ℕ → ℕ → Bool
should_rotate current_bytes pending_bytes max_bytes =
    if max_bytes == 0 || leb max_bytes current_bytes
    then true
    else leb (max_bytes - current_bytes) pending_bytes

-- The year, the month and the day of localtime_r, counted as people do.
pub record LocalDate : Type 0 where
  pub year : ℕ
  pub month : ℕ
  pub day : ℕ

-- The digits of a number in a base, the last first, with fuel.
abbrev digits_from : ℕ → ℕ → ℕ → List ℕ
digits_from zero base n = []
digits_from (suc fuel) base n =
    let rest = digits_from fuel base (n / base) in if n == 0 then [] else n % base ∷ rest

abbrev pub digit_text : ℕ → ℕ
digit_text d = if ltb d 10 then 48 + d else 87 + d

abbrev pub reversed : List ℕ → List ℕ
reversed [] = []
reversed (x ∷ xs) = reversed xs ++ x ∷ []

abbrev texts : List ℕ → List ℕ
texts [] = []
texts (d ∷ ds) = digit_text d ∷ texts ds

-- printf of a number below 2 ^ 64 in a base, with zeros in front up to a width.
abbrev pub padded : ℕ → ℕ → ℕ → List ℕ
padded base width n =
    let shown = reversed (texts (digits_from 64 base n)) in
    replicate (width - length shown) 48 ++ shown

abbrev pub date_text : LocalDate → List ℕ
date_text date = padded 10 4 date.year ++ padded 10 2 date.month ++ padded 10 2 date.day

module _ (localtime : ℕ → Option LocalDate) where
  abbrev pub dated_key : Option LocalDate → Option (List ℕ)
  dated_key none = none
  dated_key (some date) = if length (date_text date) == 8 then some (date_text date) else none

  -- The key, or `none` for false.
  unfoldable pub bucket_key : ℕ → Option (List ℕ)
  bucket_key epoch =
      let dated = dated_key (localtime epoch) in
      if ltb epoch valid_clock_minimum_epoch then some (text "boot") else dated

  abbrev pub filename_of : List ℕ → List ℕ → ℕ → ℕ → List ℕ
  filename_of directory bucket boot_id segment =
      directory
      ++ text "/desk-"
      ++ bucket
      ++ text "-"
      ++ padded 16 8 boot_id
      ++ text "-"
      ++ padded 10 3 segment
      ++ text ".log"

  abbrev pub fitting_name : ℕ → List ℕ → Option (List ℕ)
  fitting_name capacity name = if ltb (length name) capacity then some name else none

  -- The name, or `none` for false, with a directory and an output that are there.
  unfoldable pub make_filename : List ℕ → ℕ → ℕ → ℕ → ℕ → Option (List ℕ)
  make_filename directory epoch boot_id segment capacity =
      let named : Option (List ℕ) = elim (bucket_key epoch) [
        | none ↦ none
        | some bucket ↦ fitting_name capacity (filename_of directory bucket boot_id segment)
      ] in
      if length directory == 0 || capacity == 0 then none else named
