-- ===== src/Class/Reconcile.antt =====
-- `Reconcile` of the class controller: the finalizer that a class holds while Locations name it.
use locations.Prelude.{ℕ, String, List, [], ◌∷◌}
use locations.Prelude.{◌==◌, ◌<>◌, ltb, length, take, is_empty, if◌then◌else◌}
use locations.Prelude.Int.{pos}
use locations.Prelude.Effect.{Except, ok, err, pure, raise, query, ◌>>=◌, ◌>>◌}
use locations.Prelude.GoMap.{index, insert, GoMap}
use locations.Prelude.Text.{join, decimal}
use locations.Prelude.Text.Sort.{sort}
use locations.Api.{Location, LocationClass, is_zero_time}
use locations.Metrics.{Gauge, set, delete_partial_match, metric_label_class}
use locations.Publisher.Ownership.{location_removal_blocked_annotation, removal_blocked_requeue}
use locations.Class.Index.{location_class_finalizer, location_class_ref_index}
use locations.Class.Client.{
  Env, Call, Error, M, Reconciler, Result, request, metric_call, send_event,
}

abbrev pub location_class_blocked_reason : String
location_class_blocked_reason = "LocationsStillReference"

abbrev pub location_class_event_action : String
location_class_event_action = "DeleteLocationClass"

abbrev pub blocked_reference_sample : ℕ
blocked_reference_sample = 10

abbrev pub no_requeue : Result
no_requeue = record { requeue_after = pos 0 }

-- the names that the loop of `referencingLocations` appends
abbrev pub location_names : List Location → List String
location_names [] = []
location_names (l ∷ ls) = l.meta.name ∷ location_names ls

unfoldable pub blocked_message : List String → String
blocked_message referencing =
    let long = ltb blocked_reference_sample (length referencing) in
    let sample = if long then take blocked_reference_sample referencing else referencing in
    let suffix = if long then ", ..." else "" in
    decimal (length referencing)
    <> " location(s) still name this class: "
    <> join sample ", "
    <> suffix

-- The class with other annotations.
abbrev pub with_annotations : GoMap → LocationClass → LocationClass
with_annotations m c = record c { meta = record (c.meta) { annotations = m } }

module _ (V : Env) where
  abbrev pub forget_blocked : String → M V (Unit {0})
  forget_blocked name =
      metric_call V
        (delete_partial_match Gauge.location_class_deletion_blocked metric_label_class name)

  unfoldable pub hold : LocationClass → M V (Unit {0})
  hold c =
      let held = V.add_finalizer c location_class_finalizer in
      forget_blocked c.meta.name
      >> (if V.contains_finalizer c location_class_finalizer
          then pure tt
          else request V (Call.patched_class c held) (Error.holding c.meta.name) (V.patch c held))

  unfoldable pub referencing_locations : String → M V (List String)
  referencing_locations name = do
    locations ←
        request V (Call.listed_locations name) (Error.listing name)
          (V.list_matching location_class_ref_index name)
    pure (sort (location_names locations))

  unfoldable pub record_blocked_deletion : LocationClass → String → M V (Unit {0})
  record_blocked_deletion c message =
      let annotated = location_class_blocked_reason <> ": " <> message in
      let updated =
        with_annotations (insert location_removal_blocked_annotation annotated c.meta.annotations)
          c in
      if index location_removal_blocked_annotation c.meta.annotations == annotated
      then pure tt
      else request V (Call.patched_class c updated) Error.recording_blocked (V.patch c updated)

  -- `release` where no Location names the class
  unfoldable pub let_go : LocationClass → M V Result
  let_go c =
      let released = V.remove_finalizer c location_class_finalizer in
      (if V.contains_finalizer c location_class_finalizer
        then request V (Call.patched_class c released) (Error.releasing c.meta.name)
            (V.patch c released)
        else pure tt)
      >> forget_blocked c.meta.name
      >> pure no_requeue

  module _ (r : Reconciler) where
    -- `release` where some Locations name the class
    unfoldable pub block : LocationClass → List String → M V Result
    unfolding record_blocked_deletion send_event blocked_message
    block c referencing =
        let message = blocked_message referencing in
        metric_call V (
          set Gauge.location_class_deletion_blocked
            (c.meta.name ∷ location_class_blocked_reason ∷ []) (pos 1))
        >> record_blocked_deletion c message
        >> send_event V r c.meta.name "Warning" location_class_blocked_reason
            location_class_event_action message
        >> pure (record { requeue_after = removal_blocked_requeue })

    unfoldable pub release : LocationClass → M V Result
    release c = do
      referencing ← referencing_locations c.meta.name
      if is_empty referencing then let_go c else block c referencing

    abbrev pub handle : String → Except V.Failure LocationClass → M V Result
    handle name (ok c) =
        if is_zero_time c.meta.deletion_timestamp then hold c >> pure no_requeue else release c
    handle name (err e) =
        if V.is_not_found e
        then forget_blocked name >> pure no_requeue
        else raise (Error.reading_class name e)

    unfoldable pub reconcile : String → M V Result
    reconcile name = query (Call.got_class name) (V.get name) >>= handle name
