-- ===== src/Prelude/Text/Prefix.antt =====
-- `strings.TrimPrefix`
use Prim.Native.Char.{Char, code}
use Prim.Native.String.{String, [], ◌∷◌, ◌++◌ as ◌<>◌}
use mathlib.Core.Path.{◌≡◌}
use mathlib.Core.Logic.{◌⊎◌, inl, inr}
use mathlib.Core.Bool.{Bool, true, false, ◌||◌}
use mathlib.Core.Option.{Option, none, some}
use native.Mathlib.Omega.{arith}
use text.Mathlib.TextLemmas.{nil-append, cons-append}
use text.Mathlib.TextEquality.{Char-path}
use locations.Prelude.Tests.{eqb, Option-cases, if◌then◌else◌}

-- What follows the prefix, if the text begins with it.
pub cut_prefix : String → String → Option String
cut_prefix [] s = some s
cut_prefix (c ∷ p) [] = none
cut_prefix (c ∷ p) (d ∷ s) = if eqb (code c) (code d) then cut_prefix p s else none

unfoldable pub trim_prefix : String → String → String
unfolding cut_prefix
trim_prefix s p = elim (cut_prefix p s) [ none ↦ s | some r ↦ r ]

pub cut_prefix-append : (p s : String) → cut_prefix p (p <> s) ≡ some s
unfolding cut_prefix
cut_prefix-append [] s = rw nil-append
cut_prefix-append (c ∷ p) s = rw cons-append (ground (arith, cut_prefix-append p s))

eqb-code : (c d : Char) → eqb (code c) (code d) ≡ true → c ≡ d
eqb-code c d h = Char-path c d (ground arith)

pub cut_prefix-eq-some : (p s r : String) → cut_prefix p s ≡ some r → s ≡ p <> r
unfolding cut_prefix
cut_prefix-eq-some [] s r h = rw nil-append (ground arith)
cut_prefix-eq-some (c ∷ p) [] r h = ground arith
cut_prefix-eq-some (c ∷ p) (d ∷ s) r h =
    rw cons-append (ground (arith, eqb-code c d, cut_prefix-eq-some p s r))

pub trim_prefix-append : (p s : String) → trim_prefix (p <> s) p ≡ s
unfolding trim_prefix
trim_prefix-append p s = ground (arith, cut_prefix-append p s)

-- What is trimmed is the text itself, or what follows the prefix.
pub trim_prefix_cases : (p s : String) → (trim_prefix s p ≡ s) ⊎ (s ≡ p <> trim_prefix s p)
unfolding trim_prefix
trim_prefix_cases p s = elim (Option-cases (cut_prefix p s)) [
  | inl other ↦ inl (ground arith)
  | inr (r, e) ↦ inr (ground (arith, cut_prefix-eq-some p s r))
]

-- `strings.HasPrefix(s, p)`
abbrev has_prefix : String → String → Bool
has_prefix p s = elim (cut_prefix p s) [ none ↦ false | some r ↦ true ]

-- `strings.Contains(s, p)`
unfoldable pub text_contains : String → String → Bool
unfolding cut_prefix
text_contains p [] = has_prefix p []
text_contains p (c ∷ s) = has_prefix p (c ∷ s) || text_contains p s
