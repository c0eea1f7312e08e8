-- ===== src/Readiness/Accepted.antt =====
-- `LocationClassAcceptedReconciler`
use locations.Prelude.{String, Bool, Option, none, some, List, [], ◌∷◌, not}
use locations.Prelude.{◌==◌, ◌<>◌, if◌then◌else◌}
use locations.Prelude.Int.{pos}
use locations.Prelude.Effect.{Except, ok, err, pure, raise, query, ◌>>=◌, ◌>>◌}
use locations.Prelude.Text.{quote}
use locations.Api.{
  Condition, LocationClass, ParametersReference, is_zero_time, zero_time, condition_true,
  location_class_condition_accepted, location_class_reason_accepted,
}
use locations.Metrics.{Gauge, set, delete_label_values}
use locations.Readiness.Client.{Env, Call, Error, M, Reconciler, request, metric_call, send_event}

abbrev pub location_class_accepted_event_action : String
location_class_accepted_event_action = "AcceptLocationClass"

abbrev parameters_note : Option ParametersReference → String
parameters_note none = ""
parameters_note (some p) = "; spec.parametersRef is not read by this controller"

unfoldable pub accepted_message : Env → LocationClass → String
accepted_message V c =
    "Taken on by controller "
    <> quote V.is_print c.spec.controller_name
    <> parameters_note c.spec.parameters_ref

unfoldable pub accepted_condition : Env → LocationClass → Condition
accepted_condition V c = record {
  type = location_class_condition_accepted;
  status = condition_true;
  observed_generation = c.meta.generation;
  last_transition_time = zero_time;
  reason = location_class_reason_accepted;
  message = accepted_message V c;
}

-- The class with other conditions in its status.
abbrev pub with_class_conditions : List Condition → LocationClass → LocationClass
with_class_conditions cs c = record c { status = record { conditions = cs } }

module _ (V : Env) (r : Reconciler) where
  unfoldable pub write_accepted : LocationClass → Condition → List Condition → M V (Unit {0})
  unfolding send_event
  write_accepted c condition conditions =
      let updated = with_class_conditions conditions c in
      request V (Call.patched_class c updated) (Error.accepting c.meta.name)
        (V.patch_class_status c updated)
      >> send_event V r c.meta.name "Normal" condition.reason location_class_accepted_event_action
          condition.message

  abbrev write_if_changed : LocationClass → Condition → List Condition × Bool → M V (Unit {0})
  write_if_changed c condition (conditions, changed) =
      if changed then write_accepted c condition conditions else pure tt

  unfoldable pub accept : LocationClass → M V (Unit {0})
  accept c =
      let condition = accepted_condition V c in
      metric_call V (set Gauge.location_class_accepted (c.meta.name ∷ []) (pos 1))
      >> (query (Call.compared_condition condition)
            (V.set_status_condition c.status.conditions condition)
          >>= write_if_changed c condition)

  abbrev pub forget_accepted : String → M V (Unit {0})
  forget_accepted name =
      metric_call V (delete_label_values Gauge.location_class_accepted (name ∷ []))

  abbrev pub handle : String → Except V.Failure LocationClass → M V (Unit {0})
  handle name (ok c) =
      if not (c.spec.controller_name == r.controller_name)
      then pure tt
      else if not (is_zero_time c.meta.deletion_timestamp)
      then forget_accepted c.meta.name
      else accept c
  handle name (err e) =
      if V.is_not_found e then forget_accepted name else raise (Error.reading_class name e)

  -- The result asks for no requeue on any path.
  unfoldable pub reconcile : String → M V (Unit {0})
  reconcile name = query (Call.got_class name) (V.get_class name) >>= handle name
