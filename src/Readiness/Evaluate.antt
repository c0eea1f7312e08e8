-- ===== src/Readiness/Evaluate.antt =====
-- `evaluate`: what the readiness controller says of a Location.
use locations.Prelude.{String, Option, none, some, List, [], ◌∷◌, not}
use locations.Prelude.{◌==◌, ◌<>◌, if◌then◌else◌}
use locations.Prelude.Effect.{Except, ok, err, pure, raise, query, ◌>>=◌}
use locations.Prelude.GoMap.{index}
use locations.Prelude.Text.{quote}
use locations.Api.{
  Condition, Location, LocationClass, zero_time, condition_true, condition_false,
  topology_city_code_key, location_condition_ready, location_reason_ready,
  location_reason_location_class_not_found, location_reason_missing_topology,
}
use locations.Class.Index.{class_names}
use locations.Readiness.Client.{Env, Call, Error, M, Reconciler}

-- `readyCondition`
unfoldable pub ready_condition : Location → (status reason message : String) → Condition
ready_condition l status reason message = record {
  type = location_condition_ready;
  status = status;
  observed_generation = l.meta.generation;
  last_transition_time = zero_time;
  reason = reason;
  message = message;
}

-- The topology test of `evaluate` on a Location whose class names this controller.
unfoldable pub ready_verdict : Env → Location → LocationClass → Condition
ready_verdict V l c =
    if index topology_city_code_key l.spec.topology == ""
    then ready_condition l condition_false location_reason_missing_topology (
        "Location "
        <> quote V.is_print l.meta.name
        <> " carries no "
        <> topology_city_code_key
        <> ", so it cannot be placed or published")
    else ready_condition l condition_true location_reason_ready
        ("Backed by LocationClass " <> quote V.is_print c.meta.name)

unfoldable pub class_missing : Env → Location → String → Condition
class_missing V l class_name =
    ready_condition l condition_false location_reason_location_class_not_found
      ("LocationClass " <> quote V.is_print class_name <> " does not exist in this control plane")

module _ (V : Env) (r : Reconciler) where
  -- What the class says: `none` where the Location is not claimed.
  abbrev pub judge : Location → String → Except V.Failure LocationClass → M V (Option Condition)
  judge l class_name (ok c) =
      if not (c.spec.controller_name == r.controller_name)
      then pure none
      else pure (some (ready_verdict V l c))
  judge l class_name (err e) =
      if V.is_not_found e
      then pure (some (class_missing V l class_name))
      else raise (Error.reading_class class_name e)

  abbrev pub evaluate_named : Location → List String → M V (Option Condition)
  evaluate_named l [] = pure none
  evaluate_named l (class_name ∷ rest) =
      query (Call.got_class class_name) (V.get_class class_name) >>= judge l class_name

  -- The condition, or `none` where Go's `claimed` is false.
  unfoldable pub evaluate : Location → M V (Option Condition)
  evaluate l = evaluate_named l (class_names l)
