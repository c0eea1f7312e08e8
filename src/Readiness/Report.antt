-- ===== src/Readiness/Report.antt =====
-- `report`, `Reconcile` and the requests of the readiness controller.
use locations.Prelude.{String, Bool, Option, none, some, List, [], ◌∷◌, ◌++◌, not}
use locations.Prelude.{◌==◌, if◌then◌else◌}
use locations.Prelude.Int.{pos}
use locations.Prelude.Effect.{Except, ok, err, pure, raise, query, attempt, ◌>>=◌, ◌>>◌}
use locations.Api.{Condition, Location, LocationClass, is_zero_time, condition_true}
use locations.Metrics.{Gauge, set, delete_label_values}
use locations.Class.Index.{class_names}
use locations.Readiness.Client.{Env, Call, Error, M, Reconciler, request, metric_call, send_event}
use locations.Readiness.Evaluate.{evaluate}

abbrev pub location_readiness_event_action : String
location_readiness_event_action = "ReconcileLocation"

-- The Location with other conditions in its status.
abbrev pub with_conditions : List Condition → Location → Location
with_conditions cs l = record l { status = record { conditions = cs } }

-- the requests of one Location in `enqueueLocationsNamingClass`
abbrev pub requests_of : String → String → List String → List String
requests_of class_name location [] = []
requests_of class_name location (name ∷ names) =
    let rest = requests_of class_name location names in
    if not (name == class_name) then rest else location ∷ rest

unfoldable pub requests_naming : String → List Location → List String
requests_naming class_name [] = []
requests_naming class_name (l ∷ ls) =
    requests_of class_name l.meta.name (class_names l) ++ requests_naming class_name ls

module _ (V : Env) (r : Reconciler) where
  -- `report` where the condition has changed
  unfoldable pub write_status : Location → Condition → List Condition → M V (Unit {0})
  unfolding send_event
  write_status l condition conditions =
      let updated = with_conditions conditions l in
      request V (Call.patched_location l updated) (Error.reporting l.meta.name)
        (V.patch_location_status l updated)
      >> send_event V r l.meta.name
          (if not (condition.status == condition_true) then "Warning" else "Normal")
          condition.reason location_readiness_event_action condition.message

  abbrev write_if_changed : Location → Condition → List Condition × Bool → M V (Unit {0})
  write_if_changed l condition (conditions, changed) =
      if changed then write_status l condition conditions else pure tt

  unfoldable pub report : Location → Condition → M V (Unit {0})
  report l condition =
      metric_call V (
        set Gauge.location_ready (l.meta.name ∷ [])
          (if condition.status == condition_true then pos 1 else pos 0))
      >> (query (Call.compared_condition condition)
            (V.set_status_condition l.status.conditions condition)
          >>= write_if_changed l condition)

  abbrev pub report_claimed : Location → Option Condition → M V (Unit {0})
  report_claimed l none = pure tt
  report_claimed l (some condition) = report l condition

  abbrev pub forget_ready : String → M V (Unit {0})
  forget_ready name = metric_call V (delete_label_values Gauge.location_ready (name ∷ []))

  abbrev pub handle : String → Except V.Failure Location → M V (Unit {0})
  handle name (ok l) =
      if not (is_zero_time l.meta.deletion_timestamp)
      then forget_ready l.meta.name
      else evaluate V r l >>= report_claimed l
  handle name (err e) =
      if V.is_not_found e then forget_ready name else raise (Error.reading_location name e)

  -- The result asks for no requeue on any path.
  unfoldable pub reconcile : String → M V (Unit {0})
  reconcile name = query (Call.got_location name) (V.get_location name) >>= handle name

  abbrev requests_or_none : String → Except (Error V.Failure) (List Location) → M V (List String)
  requests_or_none class_name (ok ls) = pure (requests_naming class_name ls)
  requests_or_none class_name (err e) = pure []

  unfoldable pub enqueue_locations_naming_class : LocationClass → M V (List String)
  enqueue_locations_naming_class c =
      attempt (request V Call.listed_locations Error.listing V.list_locations)
      >>= requests_or_none c.meta.name
