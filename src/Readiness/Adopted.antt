-- ===== src/Readiness/Adopted.antt =====
-- When the controller that accepts classes may write: what has to have been read before each write.
use locations.Prelude.{String, true, List, [], ◌∷◌, ◌≡◌, refl, inl, inr}
use locations.Prelude.{◌==◌, not, arith, eq_iff, ap}
use locations.Prelude.Effect.{Except, ok, err}
use locations.Prelude.Trace.{
  Some, Traced, Justified, Holds-Justified, bind-Traced, query-bind-Traced, request-Traced,
  note-Traced, pure-Traced, raise-Traced, if-Traced,
}
use locations.Api.{Condition, LocationClass, is_zero_time}
use locations.Metrics.{set}
use locations.Readiness.Client.{Env, Call, Reconciler, send_event}
use locations.Readiness.Accepted.{
  accepted_condition, with_class_conditions, write_accepted, accept, handle, reconcile,
}

module _ (V : Env) (r : Reconciler) where
  abbrev pub Calls : Type 0
  Calls = List (Call V.Failure)

  -- The class was read under this name, is not being deleted, and names this controller.
  abbrev pub IsAdopted : String → LocationClass → Calls → Type 0
  IsAdopted name c now =
      (c.spec.controller_name ≡ r.controller_name)
      × (is_zero_time c.meta.deletion_timestamp ≡ true)
      × Some (λ call. call ≡ Call.got_class name (ok c)) now

  -- The merge of the class's own condition has returned these conditions as changed ones.
  abbrev pub IsChange : LocationClass → List Condition → Call V.Failure → Type 0
  IsChange c conditions call =
      call ≡ Call.compared_condition (accepted_condition V c) (conditions, true)

  -- What a call needs before it. Only what is written needs anything.
  abbrev pub Justification : String → Calls → Call V.Failure → Type 0
  Justification name now (Call.patched_class old new answer) =
      IsAdopted name old now
      × ((conditions : List Condition) × (new ≡ with_class_conditions conditions old)
          × Some (IsChange old conditions) now)
  Justification name now (Call.patched_location old new answer) = ⊥
  Justification name now (Call.metric (set gauge labels value)) =
      (c : LocationClass) × (labels ≡ c.meta.name ∷ []) × IsAdopted name c now
  Justification name now (Call.event subject type reason action message) =
      (c : LocationClass) × (subject ≡ c.meta.name) × IsAdopted name c now
  Justification name now _ = Unit

  module _ (name : String) where
    abbrev J : Calls → Call V.Failure → Type 0
    J = Justification name

    abbrev Done : {A : Type 0} → A → Calls → Type 0
    Done a now = Unit {0}

    module _ (c : LocationClass) where
      keep-IsAdopted :
          (call : Call V.Failure) (now : Calls)
          → IsAdopted name c now
          → IsAdopted name c (call ∷ now)
      keep-IsAdopted call now (same, live, h) = (same, live, inr h)

      write_accepted-Traced :
          (conditions : List Condition) (now : Calls)
          → IsAdopted name c now
          → Some (IsChange c conditions) now
          → Traced J Done now (write_accepted V r c (accepted_condition V c) conditions)
      unfolding write_accepted send_event
      write_accepted-Traced conditions now known changed =
          bind-Traced J (λ _. IsAdopted name c)
            (request-Traced J _ _ _ (λ _. (known, (conditions, refl, changed)))
              (λ _. keep-IsAdopted _ now known))
            λ _ after known'.
              if-Traced J r.recorder _ _ (λ _. note-Traced J _ (c, refl, known') tt)
                (λ _. pure-Traced J tt tt)

      accept-Traced : (now : Calls) → IsAdopted name c now → Traced J Done now (accept V r c)
      unfolding accept
      accept-Traced now known =
          bind-Traced J (λ _. IsAdopted name c)
            (note-Traced J _ (c, refl, known) (keep-IsAdopted _ now known))
            λ _ after known'.
              query-bind-Traced J _ _ _ (λ _. tt)
                λ answer.
                  if-Traced J answer.1 _ _
                    (λ changed. write_accepted-Traced answer.0 _ (keep-IsAdopted _ after known') (
                      inl (
                        ap (λ b. Call.compared_condition (accepted_condition V c) (answer.0, b))
                          changed)))
                    (λ _. pure-Traced J tt tt)

    handle-Traced :
        (answer : Except V.Failure LocationClass) (now : Calls)
        → Traced J Done (Call.got_class name answer ∷ now) (handle V r name answer)
    handle-Traced (ok c) now =
        if-Traced J (not (c.spec.controller_name == r.controller_name)) _ _
          (λ _. pure-Traced J tt tt)
          (λ same.
            if-Traced J (not (is_zero_time c.meta.deletion_timestamp)) _ _
              (λ _. note-Traced J _ tt tt)
              (λ live. accept-Traced c _ (
                ground (arith, same, eq_iff c.spec.controller_name r.controller_name),
                ground (arith, live),
                inl refl,
              )))
    handle-Traced (err e) now =
        if-Traced J (V.is_not_found e) _ _ (λ _. note-Traced J _ tt tt) (λ _. raise-Traced J _)

    reconcile-Traced : Traced J Done [] (reconcile V r name)
    unfolding reconcile
    reconcile-Traced = query-bind-Traced J _ _ _ (λ _. tt) λ answer. handle-Traced answer []

    -- Every write of a run of the controller that accepts classes is justified by the calls before it
    -- in the same run. A status patch, a value of the gauge and an event are about a class that the
    -- run has read under the reconciled name, that names this controller and is not being deleted. A
    -- status patch changes only the conditions, to those that the merge of the condition Accepted
    -- returned as changed. No Location is patched.
    pub reconcile-Adopted :
        (s : V.State) → Justified (Justification name) [] (reconcile V r name s).2
    reconcile-Adopted s = Holds-Justified J Done [] _ (reconcile-Traced.run s)
