-- ===== src/Readiness/Accepting.antt =====
-- What a run of the controller that accepts classes has done when it ends.
use locations.Prelude.{String, true, false, List, [], ◌∷◌, ◌≡◌, ◌≢◌, ◌⊎◌}
use locations.Prelude.Int.{pos}
use locations.Prelude.Effect.{ok, err}
use locations.Prelude.Trace.{Some}
use locations.Api.{Condition, LocationClass, is_zero_time}
use locations.Metrics.{Gauge, set, delete_label_values}
use locations.Readiness.Client.{Env, Call, Reconciler}
use locations.Readiness.Accepted.{accepted_condition, with_class_conditions}

module _ (V : Env) (r : Reconciler) where
  abbrev pub Calls : Type 0
  Calls = List (Call V.Failure)

  -- A client's call failed.
  abbrev pub HasFailed : Call V.Failure → Type 0
  HasFailed (Call.got_class name (err e)) = V.is_not_found e ≡ false
  HasFailed (Call.patched_class old new (err e)) = Unit
  HasFailed _ = ⊥

  -- The class was read in this state, under this name.
  abbrev IsRead : String → LocationClass → Call V.Failure → Type 0
  IsRead name c call = call ≡ Call.got_class name (ok c)

  -- The gauge of this class no longer has a value.
  abbrev IsForgotten : String → Call V.Failure → Type 0
  IsForgotten name call =
      call ≡ Call.metric (delete_label_values Gauge.location_class_accepted (name ∷ []))

  -- The gauge of this class says that it is accepted.
  abbrev IsCounted : String → Call V.Failure → Type 0
  IsCounted name call = call ≡ Call.metric (set Gauge.location_class_accepted (name ∷ []) (pos 1))

  -- The comparison of this condition with the class's said that nothing changes.
  abbrev IsUnchanged : Condition → Call V.Failure → Type 0
  IsUnchanged condition call =
      (cs : List Condition) × (call ≡ Call.compared_condition condition (cs, false))

  -- The comparison of this condition with the class's said that these are its conditions now.
  abbrev IsChanged : Condition → List Condition → Call V.Failure → Type 0
  IsChanged condition cs call = call ≡ Call.compared_condition condition (cs, true)

  -- The class was patched, with the changed conditions that the comparison gave.
  abbrev IsStored : LocationClass → Calls → Type 0
  IsStored c now =
      (cs : List Condition) × Some (IsChanged (accepted_condition V c) cs) now
      × Some (λ k. k ≡ Call.patched_class c (with_class_conditions cs c) (ok tt)) now

  -- The ways in which a run for a name ends without an error, given its calls.
  pub data Outcome (name : String) (now : Calls) : Type 0 where
    missing :
        Some
          (λ k. (e : V.Failure) × (k ≡ Call.got_class name (err e)) × (V.is_not_found e ≡ true))
          now
        → Some (IsForgotten name) now
        → Outcome name now
    unclaimed :
        (c : LocationClass)
        → Some (IsRead name c) now
        → c.spec.controller_name ≢ r.controller_name
        → Outcome name now
    deleted :
        (c : LocationClass)
        → Some (IsRead name c) now
        → is_zero_time c.meta.deletion_timestamp ≡ false
        → Some (IsForgotten c.meta.name) now
        → Outcome name now
    accepted :
        (c : LocationClass)
        → Some (IsRead name c) now
        → c.spec.controller_name ≡ r.controller_name
        → Some (IsCounted c.meta.name) now
        → Some (IsUnchanged (accepted_condition V c)) now ⊎ IsStored c now
        → Outcome name now

  module _ (name : String) where
    abbrev Good : {A : Type 0} → A → Calls → Type 0
    Good a now = Outcome name now

    abbrev Bad : Calls → Type 0
    Bad now = Some HasFailed now

    module _ (c : LocationClass) (ours : c.spec.controller_name ≡ r.controller_name) where
      -- The class is read, and its gauge set.
      abbrev Counted : Calls → Type 0
      Counted now = Some (IsRead name c) now × Some (IsCounted c.meta.name) now

      abbrev Full : Calls → Type 0
      Full now = Counted now × IsStored c now
