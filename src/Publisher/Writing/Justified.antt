-- ===== src/Publisher/Writing/Justified.antt =====
-- Every copy and every policy that the publisher writes is justified by what it has read.
use locations.Prelude.{String, Option, none, some, []}
use locations.Prelude.{◌≡◌, refl, inl}
use locations.Prelude.Effect.{Except, ok, err}
use locations.Prelude.Trace.{
  if-Traced, Some, Traced, bind-Traced, pure-Traced, raise-Traced, query-bind-Traced,
  attempt-Traced, Justified, Holds-Justified, weaken, attempt-Emits, bind-Emits, wrap-Emits,
}
use locations.Api.{Location, ServingLocation}
use locations.Publisher.Client.{Env, Call, Error, Reconciler, Result}
use locations.Publisher.Ownership.{owns_object}
use locations.Publisher.Hub.{}
use locations.Publisher.Publish.{}
use locations.Publisher.Removal.{
  has_override, remove_guarded, remove_pruned, remove_published, remove,
}
use locations.Publisher.Reconcile.{act, then_refresh, reconcile}
use locations.Publisher.Writing.{Calls, IsFree, Justification, IsSilent}
use locations.Publisher.Writing.Silent.{
  refresh_fleet_metrics-Emits, forget-Emits, foreign-Emits, evaluate_removal_guard-Emits,
  prune_allowed-Emits, delete_copy-Emits,
}
use locations.Publisher.Writing.Copies.{
  silent, silent-after, IsAnswered, keep-IsFree, read_published-Traced, retain_copy-Traced,
  publish-Traced,
}

module _ (V : Env) (r : Reconciler) (name : String) where
  abbrev J : Calls V r → Call V.Failure → Type 0
  J = Justification V r name

  abbrev Done : {A : Type 0} → A → Calls V r → Type 0
  Done a now = Unit {0}

  remove_guarded-Traced :
      (p : ServingLocation) (now : Calls V r)
      → IsFree V r name (some p) now
      → Traced J Done now (remove_guarded V r name p)
  unfolding remove_guarded
  remove_guarded-Traced p now known =
      bind-Traced J (λ _. IsFree V r name (some p))
        (silent-after V r name (IsFree V r name (some p)) (keep-IsFree V r name name (some p)) _ now
          known (evaluate_removal_guard-Emits V r name))
        λ d after known'.
          if-Traced J d.allowed _ _ (λ _. silent V r name _ after (delete_copy-Emits V r name p))
            (λ _. retain_copy-Traced V r name p d after known')

  remove_pruned-Traced :
      (p : ServingLocation) (answer : Except (Error V.Failure) (Unit {0})) (now : Calls V r)
      → IsFree V r name (some p) now
      → Traced J Done now (remove_pruned V r name p answer)
  unfolding remove_pruned
  remove_pruned-Traced p (err e) now known = pure-Traced J _ tt
  remove_pruned-Traced p (ok _) now known =
      if-Traced J (has_override p) _ _ (λ _. silent V r name _ now (delete_copy-Emits V r name p))
        (λ _. remove_guarded-Traced p now known)

  remove_published-Traced :
      (o : Option ServingLocation) (now : Calls V r)
      → IsAnswered V r name name o now
      → Traced J Done now (remove_published V r name o)
  unfolding remove_published
  remove_published-Traced none now held = silent V r name _ now (forget-Emits V r name)
  remove_published-Traced (some p) now held =
      if-Traced J (owns_object p.meta) _ _
        (λ owned.
          bind-Traced J (λ _. IsFree V r name (some p))
            (silent-after V r name (IsFree V r name (some p)) (keep-IsFree V r name name (some p)) _
              now (owned, held) (attempt-Emits (IsSilent V r) _ (prune_allowed-Emits V r)))
            λ answer after known. remove_pruned-Traced p answer after known)
        (λ foreign. silent V r name _ now (foreign-Emits V r name))

  act-Traced :
      (found : Except V.Failure Location) (now : Calls V r)
      → Some (λ c. c ≡ Call.got_location name found) now
      → Traced J Done now (act V r name found)
  unfolding act remove
  act-Traced (ok l) now h = publish-Traced V r name l now h
  act-Traced (err e) now h =
      if-Traced J (V.is_not_found e) _ _
        (λ _.
          bind-Traced J _ (read_published-Traced V r name name now)
            λ o after known. remove_published-Traced o after known)
        (λ _. raise-Traced J _)

  then_refresh-Traced :
      (answer : Except (Error V.Failure) Result) (now : Calls V r)
      → Traced J Done now (then_refresh V r answer)
  unfolding then_refresh
  then_refresh-Traced answer now = silent V r name _ now (
      bind-Emits (IsSilent V r) _ _ (refresh_fleet_metrics-Emits V r)
        λ _. wrap-Emits (IsSilent V r) _ answer)

  reconcile-Traced : Traced J Done [] (reconcile V r name)
  unfolding reconcile
  reconcile-Traced =
      query-bind-Traced J _ _ _ (λ _. tt)
        λ found.
          if-Traced J _ _ _ (λ _. act-Traced found _ (inl refl))
            λ _.
              bind-Traced J Done
                (weaken J _ (λ _ _ _. tt) (attempt-Traced J (act-Traced found _ (inl refl))))
                λ answer now _. then_refresh-Traced answer now

  -- Every write of a run of the publisher to the hub, deletes aside, is justified by the calls before
  -- it in the same run. A copy is applied only as the copy of a Location that the source has returned
  -- under the reconciled name and whose city code is not blank, where the hub has answered that
  -- it has no copy under that Location's name or one that carries the publisher's label, and with
  -- the time of publication that this answer and a reading of the clock give. A policy is applied
  -- only as that Location's policy, and after the hub has accepted its copy. A patch changes only the
  -- annotations of a copy that the hub has returned and that carries the publisher's label.
  pub reconcile-Written :
      (s : V.State) → Justified (Justification V r name) [] (reconcile V r name s).2
  reconcile-Written s = Holds-Justified J Done [] _ (reconcile-Traced.run s)
