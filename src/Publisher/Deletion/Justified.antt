-- ===== src/Publisher/Deletion/Justified.antt =====
-- Every delete that the publisher issues is justified by what it has read in the same run.
use locations.Prelude.{String, true, Option, none, some, [], ◌∷◌}
use locations.Prelude.{◌≡◌, refl, inl, inr}
use locations.Prelude.Effect.{Except, ok, err}
use locations.Prelude.Trace.{
  Emits, weaken-Emits, if-Traced, Some, Some-map, Traced, bind-Traced, pure-Traced, raise-Traced,
  query-bind-Traced, request-Traced, attempt-Traced, frame, Emits-Traced, IfOk, Justified,
  Holds-Justified, weaken, bind-Emits, wrap-Emits,
}
use locations.Api.{Location, ServingLocation}
use locations.Publisher.Client.{Env, Call, Error, M, Reconciler, Result}
use locations.Publisher.Ownership.{owns_object}
use locations.Publisher.Policy.{delete_answer, delete_propagation_policy}
use locations.Publisher.Hub.{read_published, read_answer}
use locations.Publisher.Guard.{evaluate_removal_guard}
use locations.Publisher.Guard.Allows.{removal_decision-allowed_iff}
use locations.Publisher.Removal.{
  delete_serving_answer, has_override, delete_copy, remove_guarded, remove_pruned, remove_published,
  remove,
}
use locations.Publisher.Reconcile.{act, then_refresh, reconcile}
use locations.Publisher.Deletion.{
  Calls, IsAbsent, IsHeld, IsSafeToPrune, IsVacated, IsDeletion, Justification, IsNotDelete,
  IsNotDelete-Free,
}
use locations.Publisher.Deletion.Prune.{prune_allowed-Traced}
use locations.Publisher.Deletion.Harmless.{
  forget-Emits, foreign-Emits, retain_copy-Emits, publish-Emits, refresh_fleet_metrics-Emits,
}

module _ (V : Env) (name : String) where
  abbrev J : Calls V → Call V.Failure → Type 0
  J = Justification V name

  abbrev Done : {A : Type 0} → A → Calls V → Type 0
  Done a now = Unit {0}

  -- A run that deletes nothing is justified after anything.
  harmless :
      {A : Type 0} (m : M V A) (now : Calls V) → Emits (IsNotDelete V) m → Traced J Done now m
  harmless m now h =
      Emits-Traced J (λ _. Unit {0}) (λ _ _ _. tt) m tt
        (weaken-Emits (IsNotDelete V) _ m (IsNotDelete-Free V name) h)

  -- What is known from the two first reads on.
  abbrev IsGone : ServingLocation → Calls V → Type 0
  IsGone p now = Some (IsAbsent V name) now × Some (IsHeld V name p) now

  keep-IsGone :
      (p : ServingLocation) (c : Call V.Failure) (now : Calls V) → IsGone p now → IsGone p (c ∷ now)
  keep-IsGone p c now (a, h) = (inr a, inr h)

  -- What is known once pruning is allowed.
  abbrev IsPrunable : ServingLocation → Calls V → Type 0
  IsPrunable p now = IsGone p now × IsSafeToPrune V now

  keep-IsPrunable :
      (p : ServingLocation) (c : Call V.Failure) (now : Calls V)
      → IsPrunable p now
      → IsPrunable p (c ∷ now)
  keep-IsPrunable p c now ((a, h), (s, t, inl l)) = ((inr a, inr h), (inr s, inr t, inl (inr l)))
  keep-IsPrunable p c now ((a, h), (s, t, inr l)) = ((inr a, inr h), (inr s, inr t, inr (inr l)))

  evaluate_removal_guard-Traced :
      (now : Calls V)
      → Traced J
          (λ d after. d.allowed ≡ true → Some (IsVacated V name) after)
          now
          (evaluate_removal_guard V name)
  unfolding evaluate_removal_guard
  evaluate_removal_guard-Traced now =
      bind-Traced J (λ items after. Some (λ c. c ≡ Call.listed_clusters (ok items)) after)
        (request-Traced J _ _ _ (λ _. tt) (λ items. inl refl))
        λ items after listed. pure-Traced J _ λ allowed.
          Some-map _ (IsVacated V name) after
            (λ c e. (items, e, (removal_decision-allowed_iff name items).0 allowed)) listed

  delete_serving_answer-Traced :
      (P : Calls V → Type 0) (answer : Except V.Failure (Unit {0})) (now : Calls V)
      → P now
      → Traced J (λ _. P) now (delete_serving_answer V name answer)
  delete_serving_answer-Traced P (ok _) now p = pure-Traced J tt p
  delete_serving_answer-Traced P (err e) now p =
      if-Traced J (V.is_not_found e) _ _ (λ _. pure-Traced J tt p) (λ _. raise-Traced J _)

  delete_answer-Traced :
      (w : V.Failure → Error V.Failure) (answer : Except V.Failure (Unit {0})) (now : Calls V)
      → Traced J Done now (delete_answer V w answer)
  delete_answer-Traced w (ok _) now = pure-Traced J tt tt
  delete_answer-Traced w (err e) now =
      if-Traced J (V.is_not_found e) _ _ (λ _. pure-Traced J tt tt) (λ _. raise-Traced J _)

  delete_propagation_policy-Traced :
      (now : Calls V)
      → Some (IsDeletion V) now
      → Traced J Done now (delete_propagation_policy V name)
  unfolding delete_propagation_policy
  delete_propagation_policy-Traced now d =
      query-bind-Traced J _ _ _ (λ _. (refl, d)) λ a. delete_answer-Traced _ a _

  module _ (r : Reconciler) (p : ServingLocation) where
    delete_copy-Traced :
        (now : Calls V)
        → J now (Call.deleted_serving p (ok tt))
        → Traced J Done now (delete_copy V name p)
    unfolding delete_copy
    delete_copy-Traced now h =
        bind-Traced J (λ _. Some (IsDeletion V))
          (query-bind-Traced J _ _ _ (λ _. h)
            λ a. delete_serving_answer-Traced (Some (IsDeletion V)) a _ (inl (p, a, refl)))
          λ _ after d.
            bind-Traced J Done (delete_propagation_policy-Traced after d)
              λ _ later _. harmless _ later (forget-Emits V name)

    remove_guarded-Traced :
        (now : Calls V)
        → owns_object p.meta ≡ true
        → IsPrunable p now
        → Traced J Done now (remove_guarded V r name p)
    unfolding remove_guarded
    remove_guarded-Traced now owned known =
        bind-Traced J _
          (frame J (IsPrunable p) (keep-IsPrunable p) known (evaluate_removal_guard-Traced now))
          λ d after facts.
            if-Traced J d.allowed _ _
              (λ allowed.
                delete_copy-Traced after
                  (owned, facts.0.0.0, facts.0.0.1, facts.0.1, inr (facts.1 allowed)))
              (λ refused. harmless _ after (retain_copy-Emits V r name p d))

    remove_pruned-Traced :
        (answer : Except _ (Unit {0})) (now : Calls V)
        → owns_object p.meta ≡ true
        → IsGone p now × IfOk (λ _. IsSafeToPrune V) answer now
        → Traced J Done now (remove_pruned V r name p answer)
    unfolding remove_pruned
    remove_pruned-Traced (err e) now owned known = pure-Traced J _ tt
    remove_pruned-Traced (ok _) now owned known =
        if-Traced J (has_override p) _ _
          (λ override. delete_copy-Traced now (owned, known.0.0, known.0.1, known.1, inl override))
          (λ plain. remove_guarded-Traced now owned known)

  -- What the hub has answered where the publisher goes on with a copy.
  abbrev IsHeldAs : Option ServingLocation → Calls V → Type 0
  IsHeldAs none now = Unit
  IsHeldAs (some p) now = Some (IsHeld V name p) now

  read_answer-Traced :
      (answer : Except V.Failure ServingLocation) (now : Calls V)
      → Some (λ c. c ≡ Call.got_published name answer) now
      → Traced J IsHeldAs now (read_answer V name answer)
  read_answer-Traced (ok q) now h = pure-Traced J (some q) h
  read_answer-Traced (err e) now h =
      if-Traced J (V.is_not_found e) _ _ (λ _. pure-Traced J none tt) (λ _. raise-Traced J _)

  read_published-Traced : (now : Calls V) → Traced J IsHeldAs now (read_published V name)
  unfolding read_published
  read_published-Traced now =
      query-bind-Traced J _ _ _ (λ _. tt) λ a. read_answer-Traced a _ (inl refl)

  remove_published-Traced :
      (r : Reconciler) (o : Option ServingLocation) (now : Calls V)
      → Some (IsAbsent V name) now
      → IsHeldAs o now
      → Traced J Done now (remove_published V r name o)
  unfolding remove_published
  remove_published-Traced r none now absent held = harmless _ now (forget-Emits V name)
  remove_published-Traced r (some p) now absent held =
      if-Traced J (owns_object p.meta) _ _
        (λ owned.
          bind-Traced J _
            (frame J (IsGone p) (keep-IsGone p) (absent, held)
              (attempt-Traced J (prune_allowed-Traced V name now)))
            λ answer after known. remove_pruned-Traced r p answer after owned known)
        (λ foreign. harmless _ now (foreign-Emits V name))

  act-Traced :
      (r : Reconciler) (found : Except V.Failure Location) (now : Calls V)
      → Some (λ c. c ≡ Call.got_location name found) now
      → Traced J Done now (act V r name found)
  unfolding act remove
  act-Traced r (ok l) now h = harmless _ now (publish-Emits V r l)
  act-Traced r (err e) now h =
      if-Traced J (V.is_not_found e) _ _
        (λ absent.
          bind-Traced J _
            (frame J (Some (IsAbsent V name)) (λ c now a. inr a)
              (Some-map _ (IsAbsent V name) now (λ c same. (e, same, absent)) h)
              (read_published-Traced now))
            λ o after known. remove_published-Traced r o after known.0 known.1)
        (λ _. raise-Traced J _)

  then_refresh-Traced :
      (r : Reconciler) (answer : Except (Error V.Failure) Result) (now : Calls V)
      → Traced J Done now (then_refresh V r answer)
  unfolding then_refresh
  then_refresh-Traced r answer now = harmless _ now (
      bind-Emits (IsNotDelete V) _ _ (refresh_fleet_metrics-Emits V r)
        λ _. wrap-Emits (IsNotDelete V) _ answer)

  reconcile-Traced : (r : Reconciler) → Traced J Done [] (reconcile V r name)
  unfolding reconcile
  reconcile-Traced r =
      query-bind-Traced J _ _ _ (λ _. tt)
        λ found.
          if-Traced J _ _ _ (λ _. act-Traced r found _ (inl refl))
            λ _.
              bind-Traced J Done
                (weaken J _ (λ _ _ _. tt) (attempt-Traced J (act-Traced r found _ (inl refl))))
                λ answer now _. then_refresh-Traced r answer now

  -- Every delete that a run of the publisher issues on the hub is justified by the calls before it
  -- in the same run. A copy is deleted only if it carries the publisher's label, the source has
  -- answered that it has no location of that name, the hub has returned that very copy, both caches
  -- were in step, the source listed some location or the hub listed no copy, and either the copy
  -- carries the override or a listing of the hub's clusters has shown each of them not Ready or
  -- claiming another location. A policy is deleted only under the location's policy name and
  -- after the delete of a copy.
  pub reconcile-Justified :
      (r : Reconciler) (s : V.State) → Justified (Justification V name) [] (reconcile V r name s).2
  reconcile-Justified r s = Holds-Justified J Done [] _ ((reconcile-Traced r).run s)
