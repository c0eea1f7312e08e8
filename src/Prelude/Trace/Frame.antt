-- ===== src/Prelude/Trace/Frame.antt =====
-- Errors handled as values, and runs that keep what was known before them.
use mathlib.Core.List.{List, [], ◌∷◌}
use locations.Prelude.Lists.{All}
use locations.Prelude.Effect.{runs, Except, ok, err, Action, attempt}
use locations.Prelude.Trace.Made.{Emits}
use locations.Prelude.Trace.Before.{onto, Justified}
use locations.Prelude.Trace.Rules.{Holds, Traced}

-- What the predicate says of an error that is handled as a value is left open.
abbrev pub IfOk : {E C A : Type 0} → (A → List C → Type 0) → Except E A → List C → Type 0
IfOk Post (ok a) seen = Post a seen
IfOk Post (err e) seen = Unit

attempt-Holds :
    {S E C A : Type 0} (J : List C → C → Type 0) (Post : A → List C → Type 0) (seen : List C)
    (r : Except E A × S × List C)
    → Holds J Post seen r
    → Holds {E = E} J (IfOk {E = E} Post) seen (ok r.0, r.1, r.2)
attempt-Holds J Post seen (ok a, s, l) h = h
attempt-Holds J Post seen (err e, s, l) h = (h, tt)

pub attempt-Traced :
    {S E C A : Type 0} (J : List C → C → Type 0) {Post : A → List C → Type 0} {seen : List C}
    {m : Action S E C A}
    → Traced J Post seen m
    → Traced J (IfOk {E = E} Post) seen (attempt m)
unfolding runs
attempt-Traced J {Post} {seen} {m} h = record {
  run = λ s. attempt-Holds J Post seen (m s) (h.run s);
}

-- Calls that need no justification keep what was known before them.
module _ {C : Type 0} (J : List C → C → Type 0) (P : List C → Type 0) where
  abbrev pub Free : C → Type 0
  Free c = (now : List C) → J now c

  Free-Justified : (l now : List C) → All Free l → Justified J now l
  Free-Justified [] now h = tt
  Free-Justified (c ∷ l) now (j, h) = (j now, Free-Justified l (c ∷ now) h)

  module _ (keep : (c : C) (now : List C) → P now → P (c ∷ now)) where
    kept : (l now : List C) → P now → P (onto l now)
    kept [] now p = p
    kept (c ∷ l) now p = kept l (c ∷ now) (keep c now p)

    Free-Holds :
        {S E A : Type 0} (seen : List C) (r : Except E A × S × List C)
        → P seen
        → All Free r.2
        → Holds J (λ a. P) seen r
    Free-Holds seen (ok a, s, l) p h = (Free-Justified l seen h, kept l seen p)
    Free-Holds seen (err e, s, l) p h = Free-Justified l seen h

    pub Emits-Traced :
        {S E A : Type 0} {seen : List C} (m : Action S E C A)
        → P seen
        → Emits Free m
        → Traced J (λ a. P) seen m
    Emits-Traced {seen} m p h = record { run = λ s. Free-Holds seen (m s) p (h.all s) }

    frame-Holds :
        {S E A : Type 0} (Post : A → List C → Type 0) (seen : List C) (r : Except E A × S × List C)
        → P seen
        → Holds J Post seen r
        → Holds J (λ a now. P now × Post a now) seen r
    frame-Holds Post seen (ok a, s, l) p (j, q) = (j, (kept l seen p, q))
    frame-Holds Post seen (err e, s, l) p j = j

    -- What was known before a run is known after it.
    pub frame :
        {S E A : Type 0} {Post : A → List C → Type 0} {seen : List C} {m : Action S E C A}
        → P seen
        → Traced J Post seen m
        → Traced J (λ a now. P now × Post a now) seen m
    frame {Post} {seen} {m} p h = record { run = λ s. frame-Holds Post seen (m s) p (h.run s) }
