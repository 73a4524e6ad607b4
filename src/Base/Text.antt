-- ===== src/Base/Text.antt =====
-- C strings: the bytes before the terminator.
use Prim.Native.Nat.{ℕ, ◌-◌}
use Prim.Native.Char.{code}
use Prim.Native.String.{String}
use mathlib.Core.Bool.{Bool, true, false, ◌&&◌}
use mathlib.Core.List.{List, [], ◌∷◌}
use esp32_monitor.Base.Tests.{◌==◌, if◌then◌else◌}
use esp32_monitor.Base.Lists.{take}

-- The bytes of a literal in ASCII.
abbrev pub text : String → List ℕ
text String.[] = []
text (String.◌∷◌ c s) = code c ∷ text s

-- strcmp(a, b) == 0, and memcmp of as many bytes.
abbrev pub same_bytes : List ℕ → List ℕ → Bool
same_bytes [] [] = true
same_bytes [] (y ∷ ys) = false
same_bytes (x ∷ xs) [] = false
same_bytes (x ∷ xs) (y ∷ ys) = x == y && same_bytes xs ys

-- What snprintf(output, capacity, "%s", s) leaves in an array.
abbrev pub bounded : ℕ → List ℕ → List ℕ
bounded capacity s = take (capacity - 1) s

-- The string in an array of char: the bytes before the first 0.
abbrev pub c_string : List ℕ → List ℕ
c_string [] = []
c_string (byte ∷ bytes) = let rest = c_string bytes in if byte == 0 then [] else byte ∷ rest
