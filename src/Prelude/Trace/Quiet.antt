-- ===== src/Prelude/Trace/Quiet.antt =====
-- What the calls that an action makes keep.
use mathlib.Core.List.{List, [], ◌∷◌}
use locations.Prelude.Lists.{All}
use locations.Prelude.Effect.{runs, Except, ok, err, Action, attempt}
use locations.Prelude.Trace.Before.{onto}
use locations.Prelude.Trace.Finish.{Ended, Ends}
use locations.Prelude.Trace.Made.{Emits}

module _ {C : Type 0} (Q : C → Type 0) where
  onto-All : (l seen : List C) → All Q l → All Q seen → All Q (onto l seen)
  onto-All [] seen h k = k
  onto-All (c ∷ l) seen (p, h) k = onto-All l (c ∷ seen) h (p, k)

  quiet-Ended :
      {S E A : Type 0} (Good : A → List C → Type 0) (Bad : List C → Type 0) (seen : List C)
      (run : Except E A × S × List C)
      → All Q seen
      → All Q run.2
      → Ended Good Bad seen run
      → Ended (λ a now. All Q now × Good a now) Bad seen run
  quiet-Ended Good Bad seen (ok a, s, l) p h g = (onto-All l seen h p, g)
  quiet-Ended Good Bad seen (err e, s, l) p h g = g

  -- Where only such calls were made before, only such have been made after.
  pub quiet-Ends :
      {S E A : Type 0} {Good : A → List C → Type 0} {Bad : List C → Type 0} {seen : List C}
      {m : Action S E C A}
      → All Q seen
      → Emits Q m
      → Ends Good Bad seen m
      → Ends (λ a now. All Q now × Good a now) Bad seen m
  quiet-Ends {Good} {Bad} {seen} {m} p h g = record {
    run = λ s. quiet-Ended Good Bad seen (m s) p (h.all s) (g.run s);
  }

  -- An action that handles its errors keeps what such calls keep.
  pub attempt-quiet-Ends :
      {S E A : Type 0} (P : List C → Type 0) (Bad : List C → Type 0) {seen : List C}
      (m : Action S E C A)
      → ((c : C) (now : List C) → Q c → P now → P (c ∷ now))
      → Emits Q m
      → P seen
      → Ends (λ a. P) Bad seen (attempt m)
  unfolding runs
  attempt-quiet-Ends P Bad {seen} m keep h p = record { run = λ s. kept (m s).2 seen (h.all s) p }
    where
      kept : (l now : List C) → All Q l → P now → P (onto l now)
      kept [] now q k = k
      kept (c ∷ l) now (q, r) k = kept l (c ∷ now) r (keep c now q k)
