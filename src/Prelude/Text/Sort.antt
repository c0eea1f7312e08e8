-- ===== src/Prelude/Text/Sort.antt =====
-- `sort.Strings`: the only sorted arrangement, by the bytes of the texts.
use Prim.Native.Nat.{ℕ, Ordering, compare as compare_ℕ}
use Prim.Native.Char.{code}
use Prim.Native.String.compare
use Prim.Native.String.{String, compare, then as first_difference}
use mathlib.Core.Path.{◌≡◌, refl}
use mathlib.Core.Logic.{◌≢◌}
use mathlib.Core.Bool.{Bool, true, false}
use mathlib.Core.List.{List, [], ◌∷◌}
use native.Mathlib.Omega.{arith}
use text.Mathlib.Text.{is_le}
use text.Mathlib.TextEquality.{path_by_compare}
use locations.Prelude.Tests.{if◌then◌else◌}

abbrev pub leb_text : String → String → Bool
leb_text s t = is_le (compare s t)

pub insert : String → List String → List String
insert s [] = s ∷ []
insert s (t ∷ r) = if leb_text s t then s ∷ t ∷ r else t ∷ insert s r

unfoldable pub sort : List String → List String
unfolding insert
sort [] = []
sort (s ∷ r) = insert s (sort r)

abbrev flip : Ordering → Ordering
flip Ordering.lt = Ordering.gt
flip Ordering.eq = Ordering.eq
flip Ordering.gt = Ordering.lt

compare_ℕ-flip : (a b : ℕ) → compare_ℕ b a ≡ flip (compare_ℕ a b)
compare_ℕ-flip a b = ground arith

then-flip :
    (o p q r : Ordering)
    → p ≡ flip o
    → r ≡ flip q
    → first_difference p r ≡ flip (first_difference o q)
then-flip o p q r h k = ground arith

compare-flip : (s t : String) → compare t s ≡ flip (compare s t)
compare-flip String.[] String.[] = refl
compare-flip String.[] (String.◌∷◌ d t) = rw (compare.nil-cons, compare.cons-nil)
compare-flip (String.◌∷◌ c s) String.[] = rw (compare.nil-cons, compare.cons-nil)
compare-flip (String.◌∷◌ c s) (String.◌∷◌ d t) =
    rw (compare.cons-cons d c, compare.cons-cons c d)
      (then-flip _ _ _ _ (compare_ℕ-flip (code c) (code d)) (compare-flip s t))

leb_text_total : (s t : String) → leb_text s t ≡ false → leb_text t s ≡ true
leb_text_total s t h = ground (arith, compare-flip s t)

leb_text_antisymm : (s t : String) → leb_text s t ≡ true → leb_text t s ≡ true → s ≡ t
leb_text_antisymm s t h k = path_by_compare s t (ground (arith, compare-flip s t))

-- The order composes: each of the two answers at the first difference carries over.
abbrev compose : Ordering → Ordering → Ordering
compose Ordering.lt _ = Ordering.lt
compose Ordering.eq q = q
compose Ordering.gt _ = Ordering.gt

leb_text_trans : (s t u : String) → leb_text s t ≡ true → leb_text t u ≡ true → leb_text s u ≡ true
leb_text_trans String.[] t String.[] h k = refl
leb_text_trans String.[] t (String.◌∷◌ e u) h k = rw compare.nil-cons refl
leb_text_trans (String.◌∷◌ c s) String.[] u h k = ground (arith, compare.cons-nil c s)
leb_text_trans (String.◌∷◌ c s) (String.◌∷◌ d t) String.[] h k =
    ground (arith, compare.cons-nil d t)
leb_text_trans (String.◌∷◌ c s) (String.◌∷◌ d t) (String.◌∷◌ e u) h k = ground (
  arith,
  compare.cons-cons c d s t,
  compare.cons-cons d e t u,
  compare.cons-cons c e s u,
  leb_text_trans s t u,
)

-- Insertions commute, so the result of `sort` does not depend on the order of its argument.
pub insert_comm : (s t : String) (r : List String) → insert s (insert t r) ≡ insert t (insert s r)
unfolding insert
insert_comm s t [] = ground (arith, leb_text_total s t, leb_text_antisymm s t)
insert_comm s t (u ∷ r) = ground (
  arith,
  insert_comm s t r,
  leb_text_total s t,
  leb_text_total s u,
  leb_text_total t u,
  leb_text_antisymm s t,
  leb_text_trans s t u,
  leb_text_trans t s u,
  leb_text_trans t u s,
  leb_text_trans s u t,
)

insert-ne-nil : (s : String) (r : List String) → insert s r ≢ []
unfolding insert
insert-ne-nil s [] h = cc
insert-ne-nil s (t ∷ r) h = ground arith

pub sort-eq-nil : (l : List String) → sort l ≡ [] → l ≡ []
unfolding sort
sort-eq-nil [] h = refl
sort-eq-nil (s ∷ r) h = absurd (insert-ne-nil s (sort r) h)
