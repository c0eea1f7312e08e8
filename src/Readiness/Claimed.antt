-- ===== src/Readiness/Claimed.antt =====
-- When the readiness controller may write: what has to have been read before each write.
use locations.Prelude.{String, true, Option, none, some, List, [], ◌∷◌, ◌≡◌, refl, ◌⊎◌, inl, inr}
use locations.Prelude.{◌==◌, not, arith, eq_iff, ap}
use locations.Prelude.Effect.{Except, ok, err}
use locations.Prelude.Trace.{
  Some, Traced, Justified, Holds-Justified, bind-Traced, query-bind-Traced, request-Traced,
  note-Traced, pure-Traced, raise-Traced, if-Traced, frame,
}
use locations.Api.{Condition, Location, LocationClass, is_zero_time}
use locations.Metrics.{set}
use locations.Class.Index.{class_names}
use locations.Class.Index.Names.{class_names-single}
use locations.Readiness.Client.{Env, Call, Reconciler, send_event}
use locations.Readiness.Evaluate.{judge, evaluate_named, evaluate}
use locations.Readiness.Report.{
  with_conditions, write_status, report, report_claimed, handle, reconcile,
}

module _ (V : Env) (r : Reconciler) where
  abbrev pub Calls : Type 0
  Calls = List (Call V.Failure)

  -- The Location was read in this state, under this name.
  abbrev pub IsRead : String → Location → Call V.Failure → Type 0
  IsRead name l call = call ≡ Call.got_location name (ok l)

  -- The class of the Location was read, and names this controller or does not exist.
  abbrev pub IsClaim : Location → Call V.Failure → Type 0
  IsClaim l call =
      (class_name : String) × (class_names l ≡ class_name ∷ [])
      × (((c : LocationClass) × (call ≡ Call.got_class class_name (ok c))
            × (c.spec.controller_name ≡ r.controller_name))
          ⊎ ((e : V.Failure) × (call ≡ Call.got_class class_name (err e))
              × (V.is_not_found e ≡ true)))

  -- The Location was read under this name, is not being deleted, and is claimed.
  abbrev pub IsReported : String → Location → Calls → Type 0
  IsReported name l now =
      (is_zero_time l.meta.deletion_timestamp ≡ true)
      × Some (IsRead name l) now
      × Some (IsClaim l) now

  -- `meta.SetStatusCondition` has returned these conditions as changed ones.
  abbrev pub IsChange : List Condition → Call V.Failure → Type 0
  IsChange conditions call =
      (condition : Condition) × (call ≡ Call.compared_condition condition (conditions, true))

  -- What a call needs before it. Only what is written needs anything.
  abbrev pub Justification : String → Calls → Call V.Failure → Type 0
  Justification name now (Call.patched_location old new answer) =
      IsReported name old now
      × ((conditions : List Condition) × (new ≡ with_conditions conditions old)
          × Some (IsChange conditions) now)
  Justification name now (Call.patched_class old new answer) = ⊥
  Justification name now (Call.metric (set gauge labels value)) =
      (l : Location) × (labels ≡ l.meta.name ∷ []) × IsReported name l now
  Justification name now (Call.event subject type reason action message) =
      (l : Location) × (subject ≡ l.meta.name) × IsReported name l now
  Justification name now _ = Unit

  module _ (name : String) where
    abbrev J : Calls → Call V.Failure → Type 0
    J = Justification name

    abbrev Done : {A : Type 0} → A → Calls → Type 0
    Done a now = Unit {0}

    module _ (l : Location) where
      abbrev Reported : {A : Type 0} → A → Calls → Type 0
      Reported a now = IsReported name l now

      keep-IsReported :
          (call : Call V.Failure) (now : Calls)
          → IsReported name l now
          → IsReported name l (call ∷ now)
      keep-IsReported call now (z, a, b) = (z, inr a, inr b)

      -- What `evaluate` says of its reads: a condition comes only of a claim.
      abbrev Judged : Option Condition → Calls → Type 0
      Judged none now = Unit
      Judged (some condition) now = Some (IsClaim l) now

      judge-Traced :
          (class_name : String) (answer : Except V.Failure LocationClass) (now : Calls)
          → class_names l ≡ class_name ∷ []
          → Traced J Judged (Call.got_class class_name answer ∷ now) (judge V r l class_name answer)
      judge-Traced class_name (ok c) now e =
          if-Traced J (not (c.spec.controller_name == r.controller_name)) _ _
            (λ _. pure-Traced J none tt)
            (λ same. pure-Traced J _ (
              inl (
                class_name,
                e,
                inl (c, refl, ground (arith, eq_iff c.spec.controller_name r.controller_name)),
              )))
      judge-Traced class_name (err x) now e =
          if-Traced J (V.is_not_found x) _ _
            (λ gone. pure-Traced J _ (inl (class_name, e, inr (x, refl, gone))))
            (λ _. raise-Traced J _)

      evaluate_named-Traced :
          (names : List String) (now : Calls)
          → ((n : String) (rest : List String) → names ≡ n ∷ rest → class_names l ≡ n ∷ [])
          → Traced J Judged now (evaluate_named V r l names)
      evaluate_named-Traced [] now h = pure-Traced J none tt
      evaluate_named-Traced (n ∷ rest) now h =
          query-bind-Traced J _ _ _ (λ _. tt) λ answer. judge-Traced n answer now (h n rest refl)

      write_status-Traced :
          (condition : Condition) (conditions : List Condition) (now : Calls)
          → IsReported name l now
          → Some (IsChange conditions) now
          → Traced J Done now (write_status V r l condition conditions)
      unfolding write_status send_event
      write_status-Traced condition conditions now known changed =
          bind-Traced J Reported
            (request-Traced J _ _ _ (λ _. (known, (conditions, refl, changed)))
              (λ _. keep-IsReported _ now known))
            λ _ after known'.
              if-Traced J r.recorder _ _ (λ _. note-Traced J _ (l, refl, known') tt)
                (λ _. pure-Traced J tt tt)

      report-Traced :
          (condition : Condition) (now : Calls)
          → IsReported name l now
          → Traced J Done now (report V r l condition)
      unfolding report
      report-Traced condition now known =
          bind-Traced J Reported (note-Traced J _ (l, refl, known) (keep-IsReported _ now known))
            λ _ after known'.
              query-bind-Traced J _ _ _ (λ _. tt)
                λ answer.
                  if-Traced J answer.1 _ _
                    (λ changed.
                      write_status-Traced condition answer.0 _ (keep-IsReported _ after known') (
                        inl (
                          condition,
                          ap (λ b. Call.compared_condition condition (answer.0, b)) changed,
                        )))
                    (λ _. pure-Traced J tt tt)

      report_claimed-Traced :
          (verdict : Option Condition) (now : Calls)
          → is_zero_time l.meta.deletion_timestamp ≡ true
          → Some (IsRead name l) now
          → Judged verdict now
          → Traced J Done now (report_claimed V r l verdict)
      report_claimed-Traced none now z known claim = pure-Traced J tt tt
      report_claimed-Traced (some condition) now z known claim =
          report-Traced condition now (z, known, claim)

    handle-Traced :
        (answer : Except V.Failure Location) (now : Calls)
        → Traced J Done (Call.got_location name answer ∷ now) (handle V r name answer)
    unfolding evaluate
    handle-Traced (ok l) now =
        if-Traced J (not (is_zero_time l.meta.deletion_timestamp)) _ _ (λ _. note-Traced J _ tt tt)
          (λ live.
            bind-Traced J _
              (frame J (Some (IsRead name l)) (λ _ _ k. inr k) (inl refl)
                (evaluate_named-Traced l (class_names l) _ (class_names-single l)))
              λ verdict after (known, claim).
                report_claimed-Traced l verdict after (ground arith) known claim)
    handle-Traced (err e) now =
        if-Traced J (V.is_not_found e) _ _ (λ _. note-Traced J _ tt tt) (λ _. raise-Traced J _)

    reconcile-Traced : Traced J Done [] (reconcile V r name)
    unfolding reconcile
    reconcile-Traced = query-bind-Traced J _ _ _ (λ _. tt) λ answer. handle-Traced answer []

    -- Every write of a run of the readiness controller is justified by the calls before it in the same
    -- run. A status patch, a value of the gauge and an event are about a Location that the run has
    -- read, that is not being deleted, and whose class the run has read: the class names this
    -- controller, or it does not exist. A status patch changes only the conditions, to those that
    -- the merge of a condition returned as changed. No class is patched.
    pub reconcile-Claimed :
        (s : V.State) → Justified (Justification name) [] (reconcile V r name s).2
    reconcile-Claimed s = Holds-Justified J Done [] _ (reconcile-Traced.run s)
