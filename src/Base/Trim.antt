-- ===== src/Base/Trim.antt =====
-- A trimmed text has nothing left to trim.
use Prim.Native.Char.{code}
use Prim.Native.String.{String, [], ◌∷◌}
use mathlib.Core.Path.{◌≡◌, refl, ap, ◌∙◌}
use mathlib.Core.Logic.{inl, inr}
use mathlib.Core.Bool.{Bool, true, not, ◌&&◌}
use native.Mathlib.Omega.{arith}
use execgo_runtime.Base.Tests.{Bool-cases}
use execgo_runtime.Base.Text.{is_whitespace, is_empty, trim_start, trim_end, trim}

-- The text does not begin with white space.
abbrev begins : String → Bool
begins [] = true
begins (c ∷ s) = not (is_whitespace (code c))

begins-trim_start : (s : String) → begins (trim_start s) ≡ true
unfolding trim_start
begins-trim_start [] = refl
begins-trim_start (c ∷ s) = ground (arith, begins-trim_start s)

begins-trim_end : (s : String) → begins s ≡ true → begins (trim_end s) ≡ true
unfolding trim_end
begins-trim_end [] h = refl
begins-trim_end (c ∷ s) h = ground arith

trim_start-begins : (s : String) → begins s ≡ true → trim_start s ≡ s
unfolding trim_start
trim_start-begins [] h = refl
trim_start-begins (c ∷ s) h = ground arith

trim_end-twice : (s : String) → trim_end (trim_end s) ≡ trim_end s
unfolding trim_end
trim_end-twice [] = refl
trim_end-twice (c ∷ s) = elim (Bool-cases (is_empty (trim_end s) && is_whitespace (code c))) [
  | inl e ↦ rw (trim_end, e) refl
  | inr e ↦ rw (trim_end, e, trim_end-twice s, e) refl
]

pub trim-twice : (s : String) → trim (trim s) ≡ trim s
unfolding trim
trim-twice s =
    ap trim_end (
      trim_start-begins (trim_end (trim_start s))
        (begins-trim_end (trim_start s) (begins-trim_start s)))
    ∙ trim_end-twice (trim_start s)
