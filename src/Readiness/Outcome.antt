-- ===== src/Readiness/Outcome.antt =====
-- What a run of the readiness controller has done when it ends.
use locations.Prelude.{String, true, false, Option, none, some, List, [], ◌∷◌, ◌≡◌, ◌≢◌, ◌⊎◌}
use locations.Prelude.Effect.{ok, err}
use locations.Prelude.Trace.{Some}
use locations.Api.{Condition, Location, LocationClass, is_zero_time}
use locations.Class.Index.{class_names}
use locations.Readiness.Client.{Env, Call, Reconciler}
use locations.Readiness.Evaluate.{ready_verdict, class_missing}
use locations.Readiness.Report.{with_conditions}
use locations.Readiness.Claimed.{Calls, IsRead}

module _ (V : Env) (r : Reconciler) where
  -- A client's call failed.
  abbrev pub HasFailed : Call V.Failure → Type 0
  HasFailed (Call.got_location name (err e)) = V.is_not_found e ≡ false
  HasFailed (Call.got_class name (err e)) = V.is_not_found e ≡ false
  HasFailed (Call.patched_location old new (err e)) = Unit
  HasFailed _ = ⊥

  -- The class that the Location names was read in this state.
  abbrev pub IsNamed : Location → LocationClass → Call V.Failure → Type 0
  IsNamed l c call = (n : String) × (class_names l ≡ n ∷ []) × (call ≡ Call.got_class n (ok c))

  -- The class that the Location names was not found, under this name.
  abbrev pub IsAbsent : Location → String → Call V.Failure → Type 0
  IsAbsent l n call =
      (e : V.Failure) × (class_names l ≡ n ∷ [])
      × (call ≡ Call.got_class n (err e))
      × (V.is_not_found e ≡ true)

  -- Where the condition that a run reports comes from.
  abbrev pub IsVerdict : Location → Condition → Calls V r → Type 0
  IsVerdict l condition now =
      ((c : LocationClass) × (condition ≡ ready_verdict V l c)
        × (c.spec.controller_name ≡ r.controller_name)
        × Some (IsNamed l c) now)
      ⊎ ((n : String) × (condition ≡ class_missing V l n) × Some (IsAbsent l n) now)

  -- The comparison of this condition with the Location's said that these are its conditions now.
  abbrev pub IsChanged : Condition → List Condition → Call V.Failure → Type 0
  IsChanged condition cs call = call ≡ Call.compared_condition condition (cs, true)

  -- The Location was patched, with the changed conditions that the comparison gave.
  abbrev pub IsPatched : Location → Condition → Calls V r → Type 0
  IsPatched l condition now =
      (cs : List Condition) × Some (IsChanged condition cs) now
      × Some (λ k. k ≡ Call.patched_location l (with_conditions cs l) (ok tt)) now

  -- The comparison said that the Location's conditions were up to date, or they were patched.
  abbrev pub IsStored : Location → Condition → Calls V r → Type 0
  IsStored l condition now =
      Some (λ k. (cs : List Condition) × (k ≡ Call.compared_condition condition (cs, false))) now
      ⊎ IsPatched l condition now

  -- The ways in which a run for a name ends without an error, given its calls.
  pub data Outcome (name : String) (now : Calls V r) : Type 0 where
    missing :
        Some
          (λ c. (e : V.Failure) × (c ≡ Call.got_location name (err e)) × (V.is_not_found e ≡ true))
          now
        → Outcome name now
    deleted :
        (l : Location)
        → Some (IsRead V r name l) now
        → is_zero_time l.meta.deletion_timestamp ≡ false
        → Outcome name now
    unnamed : (l : Location) → Some (IsRead V r name l) now → class_names l ≡ [] → Outcome name now
    unclaimed :
        (l : Location) (c : LocationClass)
        → Some (IsRead V r name l) now
        → Some (IsNamed l c) now
        → c.spec.controller_name ≢ r.controller_name
        → Outcome name now
    reported :
        (l : Location) (condition : Condition)
        → Some (IsRead V r name l) now
        → IsVerdict l condition now
        → IsStored l condition now
        → Outcome name now

  module _ (name : String) where
    abbrev Good : {A : Type 0} → A → Calls V r → Type 0
    Good a now = Outcome name now

    abbrev Bad : Calls V r → Type 0
    Bad now = Some HasFailed now

    module _ (l : Location) where
      abbrev Here : Calls V r → Type 0
      Here now = Some (IsRead V r name l) now

      -- What `evaluate` has read where it claims the Location, and where it does not.
      abbrev Judged : Option Condition → Calls V r → Type 0
      Judged none now =
          (class_names l ≡ [])
          ⊎ ((c : LocationClass) × (c.spec.controller_name ≢ r.controller_name)
              × Some (IsNamed l c) now)
      Judged (some condition) now = IsVerdict l condition now

      module _ (condition : Condition) where
        abbrev Known : Calls V r → Type 0
        Known now = Here now × IsVerdict l condition now

        abbrev Full : Calls V r → Type 0
        Full now = Known now × IsPatched l condition now
