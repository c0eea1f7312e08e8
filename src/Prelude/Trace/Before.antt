-- ===== src/Prelude/Trace/Before.antt =====
-- What has happened before a point of a list of calls.
use mathlib.Core.Path.{◌≡◌, refl}
use mathlib.Core.Logic.{◌⊎◌, inl, inr}
use mathlib.Core.List.{List, [], ◌∷◌, ◌++◌}
use locations.Prelude.Effect.{}

-- Some call in the list has the property.
abbrev pub Some : {C : Type 0} → (C → Type 0) → List C → Type 0
Some P [] = ⊥
Some P (c ∷ l) = P c ⊎ Some P l

-- The calls before a point, the latest first.
abbrev pub onto : {C : Type 0} → List C → List C → List C
onto [] seen = seen
onto (c ∷ l) seen = onto l (c ∷ seen)

-- Each call of the list is justified by those before it.
abbrev pub Justified : {C : Type 0} → (List C → C → Type 0) → List C → List C → Type 0
Justified J seen [] = Unit
Justified J seen (c ∷ l) = J seen c × Justified J (c ∷ seen) l

pub Some-onto : {C : Type 0} (P : C → Type 0) (l seen : List C) → Some P seen → Some P (onto l seen)
Some-onto P [] seen h = h
Some-onto P (c ∷ l) seen h = Some-onto P l (c ∷ seen) (inr h)

pub Some-map :
    {C : Type 0} (P Q : C → Type 0) (l : List C) → ((c : C) → P c → Q c) → Some P l → Some Q l
Some-map P Q [] f h = h
Some-map P Q (c ∷ l) f (inl p) = inl (f c p)
Some-map P Q (c ∷ l) f (inr h) = inr (Some-map P Q l f h)

pub onto-append : {C : Type 0} (l m seen : List C) → onto (l ++ m) seen ≡ onto m (onto l seen)
onto-append [] m seen = refl
onto-append (c ∷ l) m seen = onto-append l m (c ∷ seen)

pub Justified-append :
    {C : Type 0} (J : List C → C → Type 0) (l m seen : List C)
    → Justified J seen l
    → Justified J (onto l seen) m
    → Justified J seen (l ++ m)
Justified-append J [] m seen h k = k
Justified-append J (c ∷ l) m seen (j, h) k = (j, Justified-append J l m (c ∷ seen) h k)
