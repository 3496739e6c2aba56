-- ===== src/Text.antt =====
-- JavaScript strings as lists of UTF-16 code units, with `===`, `<` and the default `sort`.
pub mod Order
pub mod Sorting
use Prim.Native.Char.{code}
use Prim.Native.String.{String}
use authorization_core.Common.{
  ℕ, Bool, true, false, ◌&&◌, ◌||◌, not, List, [], ◌∷◌, ◌==◌, ltb, if◌then◌else◌,
}

-- A string: its UTF-16 code units.
abbrev pub Text : Type 0
Text = List ℕ

-- An ASCII literal.
abbrev pub text : String → Text
text String.[] = []
text (String.◌∷◌ c s) = code c ∷ text s

-- `left === right`
unfoldable pub same : Text → Text → Bool
same [] [] = true
same [] (d ∷ t) = false
same (c ∷ s) [] = false
same (c ∷ s) (d ∷ t) = c == d && same s t

-- `left < right`, by code units
unfoldable pub before : Text → Text → Bool
before s [] = false
before [] (d ∷ t) = true
before (c ∷ s) (d ∷ t) = ltb c d || (c == d && before s t)

-- `values.includes(value)`
unfoldable pub includes : List Text → Text → Bool
includes [] s = false
includes (t ∷ ts) s = same t s || includes ts s

-- One element put into its place among sorted ones.
pub place : Text → List Text → List Text
place s [] = s ∷ []
place s (t ∷ ts) = let rest = place s ts in if before t s then t ∷ rest else s ∷ t ∷ ts

-- `values.sort()`
unfoldable pub sort : List Text → List Text
unfolding place before
sort [] = []
sort (s ∷ ss) = place s (sort ss)

-- `[...new Set(values)]`: the first occurrence of each value, in insertion order. `seen` holds the
-- values that the set has already.
distinct_from : List Text → List Text → List Text
distinct_from seen [] = []
distinct_from seen (s ∷ ss) =
    let old = distinct_from seen ss in
    let new = s ∷ distinct_from (s ∷ seen) ss in if includes seen s then old else new

unfoldable pub distinct : List Text → List Text
unfolding distinct_from includes same
distinct values = distinct_from [] values
