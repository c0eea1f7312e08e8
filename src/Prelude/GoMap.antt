-- ===== src/Prelude/GoMap.antt =====
-- Go's `map[string]string` as an association list. A nil map and an empty map read alike, and the
-- program writes to a map only after it has replaced nil.
use Prim.Native.String.{String}
use mathlib.Core.Path.{◌≡◌, refl}
use mathlib.Core.Bool.{Bool, true, false}
use mathlib.Core.Option.{Option, none, some}
use mathlib.Core.List.{List, [], ◌∷◌}
use native.Mathlib.Omega.{arith}
use text.Mathlib.Text.{◌==◌}
use text.Mathlib.TextEquality.{eq_iff}
use locations.Prelude.Tests.{if◌then◌else◌}

abbrev pub GoMap : Type 0
GoMap = List (String × String)

-- `v, ok := m[k]`
abbrev pub lookup : String → GoMap → Option String
lookup k [] = none
lookup k ((j, v) ∷ m) = if j == k then some v else lookup k m

-- `m[k]`, which is "" where the key is missing
abbrev pub index : String → GoMap → String
index k m = elim (lookup k m) [ none ↦ "" | some v ↦ v ]

-- `_, ok := m[k]`
abbrev pub contains : String → GoMap → Bool
contains k m = elim (lookup k m) [ none ↦ false | some v ↦ true ]

-- `m[k] = v`
abbrev pub insert : String → String → GoMap → GoMap
insert k v [] = (k, v) ∷ []
insert k v ((j, w) ∷ m) = if j == k then (k, v) ∷ m else (j, w) ∷ insert k v m

-- `delete(m, k)`
abbrev pub erase : String → GoMap → GoMap
erase k [] = []
erase k ((j, w) ∷ m) = let rest = erase k m in if j == k then rest else (j, w) ∷ rest

pub lookup-insert :
    (k j v : String) (m : GoMap) → lookup j (insert k v m) ≡ (if k == j then some v else lookup j m)
lookup-insert k j v [] = refl
lookup-insert k j v ((i, w) ∷ m) =
    ground (arith, eq_iff k j, eq_iff i k, eq_iff i j, lookup-insert k j v m)

pub lookup-erase :
    (k j : String) (m : GoMap) → lookup j (erase k m) ≡ (if k == j then none else lookup j m)
lookup-erase k j [] = ground (arith, eq_iff k j)
lookup-erase k j ((i, w) ∷ m) =
    ground (arith, eq_iff k j, eq_iff i k, eq_iff i j, lookup-erase k j m)
