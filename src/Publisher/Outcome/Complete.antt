-- ===== src/Publisher/Outcome/Complete.antt =====
-- How every run of the publisher ends.
use locations.Prelude.{String}
use locations.Prelude.Effect.{Except}
use locations.Prelude.Trace.{Either}
use locations.Publisher.Client.{Env, Error, Reconciler, Result}
use locations.Publisher.Outcome.{Calls, Outcome}
use locations.Publisher.Outcome.Published.{Bad}

module _ (V : Env) (r : Reconciler) (name : String) where
  abbrev Good : Result → Calls V r → Type 0
  Good result now = Outcome V r name result now

  abbrev Verdict : Except (Error V.Failure) Result → Calls V r → Type 0
  Verdict answer now = Either {E = Error V.Failure} Good (Bad V r) answer now
