-- ===== src/Common/Texts.antt =====
-- Text by its UTF-16 code units, as JavaScript counts and compares it.
use Prim.Native.Nat.{ℕ, ◌+◌, ◌-◌, ◌/◌, ◌%◌}
use Prim.Native.Char.{code}
use Prim.Native.String.{String}
use mathlib.Core.Bool.{Bool, true, false, ◌&&◌, ◌||◌}
use mathlib.Core.List.{List, [], ◌∷◌, map}
use notebortt_backend.Common.Tests.{leb, eqb, if◌then◌else◌}
use notebortt_backend.Common.Lists.{length}

abbrev pub with_units : ℕ → List ℕ → List ℕ
with_units c rest =
    if leb c 65_535
    then c ∷ rest
    else (55_296 + (c - 65_536) / 1_024) ∷ ((56_320 + (c - 65_536) % 1_024) ∷ rest)

-- `charCodeAt` at each index.
unfoldable pub code_units : String → List ℕ
code_units String.[] = []
code_units (String.◌∷◌ c s) = with_units (code c) (code_units s)

-- `s.length`.
unfoldable pub text_length : String → ℕ
unfolding code_units
text_length s = length (code_units s)

abbrev pub is_prefix : List ℕ → List ℕ → Bool
is_prefix [] ys = true
is_prefix (x ∷ xs) [] = false
is_prefix (x ∷ xs) (y ∷ ys) = eqb x y && is_prefix xs ys

abbrev pub is_part : List ℕ → List ℕ → Bool
is_part xs [] = is_prefix xs []
is_part xs (y ∷ ys) = is_prefix xs (y ∷ ys) || is_part xs ys

-- `s.includes(part)`.
unfoldable pub includes : String → String → Bool
unfolding code_units
includes part s = is_part (code_units part) (code_units s)

abbrev pub lower_unit : ℕ → ℕ
lower_unit c = if leb 65 c && leb c 90 then c + 32 else c

-- `s.toLowerCase().includes(part)`, for a part in ASCII that no other letter is lowered to.
unfoldable pub includes_lower : String → String → Bool
unfolding code_units
includes_lower part s = is_part (code_units part) (map lower_unit (code_units s))

abbrev pub between : ℕ → ℕ → ℕ → Bool
between low high c = leb low c && leb c high
