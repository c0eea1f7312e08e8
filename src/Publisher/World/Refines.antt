-- ===== src/Publisher/World/Refines.antt =====
-- A run of the publisher does to the control planes what the specification says.
use locations.Prelude.{String, arith, ◌≡◌, refl, ◌∙◌}
use locations.Prelude.Effect.{Except, ok, err}
use locations.Prelude.Steps.{
  Takes, Leaves, IfOk, bind-Takes, read-bind-Takes, still-bind-Takes, if-Takes, attempt-Takes,
  weaken-Takes, wrap-Takes,
}
use locations.Api.{Time, zero_time, Location}
use locations.Publisher.Client.{Env, Error, Reconciler, Result}
use locations.Publisher.Reconcile.{act, then_refresh, reconcile}
use locations.Publisher.World.{View, World, IsLookup, location_meta}
use locations.Publisher.World.Spec.{next}
use locations.Publisher.World.Still.{Never, refresh_fleet_metrics-Still}
use locations.Publisher.World.Publishing.{publish-Takes}
use locations.Publisher.World.Removing.{remove-Takes}

module _ (V : Env) (W : World V) (r : Reconciler) (name : String) where
  -- What the specification gives, for some reading of the clock.
  abbrev pub IsNext : View → {A : Type 0} → A → View → Type 0
  IsNext v a w = (clock : Time) × (w ≡ next r.config.location_scoped_resources clock name v)

  act-Takes :
      (v : View) (found : Except V.Failure Location)
      → IsLookup V (λ l. l) location_meta name found (v.sources name)
      → Takes W.view (IsNext v) Never v (act V r name found)
  unfolding act next
  act-Takes v (ok l) known =
      weaken-Takes W.view Never (λ a w e. (e.0, e.1 ∙ rw known.0 refl)) (publish-Takes V W r l v)
  act-Takes v (err x) known =
      if-Takes W.view Never (V.is_not_found x) _ _
        (λ _.
          weaken-Takes W.view Never (λ a w e. (zero_time, e ∙ rw known.0 refl))
            (remove-Takes V W r name v))
        (λ failed. absurd (ground (arith, known.1, failed)))

  return-Takes :
      (v : View) (answer : Except (Error V.Failure) Result) (w : View)
      → IfOk {F = Error V.Failure} (IsNext v) Never answer w
      → Takes W.view (IsNext v) Never w (then_refresh V r answer)
  unfolding then_refresh
  return-Takes v answer w e =
      still-bind-Takes W.view Never (λ _. Unit {0}) (refresh_fleet_metrics-Still V W r w)
        λ _ _. wrap-Takes W.view Never (λ x. x) answer e

  reconcile-Takes : (v : View) → Takes W.view (IsNext v) Never v (reconcile V r name)
  unfolding reconcile
  reconcile-Takes v =
      read-bind-Takes W.view Never (λ a. IsLookup V (λ l. l) location_meta name a (v.sources name))
        _ _ _ (W.get_source name v)
        λ found known.
          if-Takes W.view Never _ _ _ (λ _. act-Takes v found known)
            λ _.
              bind-Takes W.view Never
                (λ answer w. IfOk {F = Error V.Failure} (IsNext v) Never answer w)
                (attempt-Takes W.view Never Never (act-Takes v found known))
                λ answer w e. return-Takes v answer w e

  -- Where every client's call succeeds as documented, and nothing else changes the control planes
  -- meanwhile, every run of the publisher ends without an error, and takes the control planes to the
  -- view that the specification gives for a reading of the clock.
  pub reconcile-refines :
      (s : V.State) → Leaves W.view (IsNext (W.view s)) (λ _. ⊥) (reconcile V r name s)
  reconcile-refines s = (reconcile-Takes (W.view s)).run s refl
