-- ===== src/Publisher/Removal.antt =====
-- `remove`, `blockedRequeue` and `pruneAllowed`.
pub mod Requeue
use locations.Prelude.{String, Bool, true, false, not, Option, none, some, List, [], ◌∷◌}
use locations.Prelude.{◌==◌, ◌&&◌, ltb, length, is_empty, if◌then◌else◌}
use locations.Prelude.Int.{pos, ltb_ℤ}
use locations.Prelude.Effect.{Except, ok, err, pure, raise, query, attempt, ◌>>=◌, ◌>>◌}
use locations.Prelude.GoMap.{index}
use locations.Api.{ServingLocation}
use locations.Config.{Duration}
use locations.Metrics.{
  Gauge, set, delete_label_values, delete_partial_match, count_conflict, metric_label_location,
}
use locations.Publisher.Client.{Env, Call, Error, M, Reconciler, Result, request, metric_call}
use locations.Publisher.Ownership.{
  owns_object, removal_blocked_requeue, location_removal_override_annotation,
}
use locations.Publisher.Policy.{delete_propagation_policy}
use locations.Publisher.Hub.{RemovalDecision, read_published, list_published, record_blocked}
use locations.Publisher.Guard.{evaluate_removal_guard}
use locations.Publisher.Publish.{no_requeue}

unfoldable pub blocked_requeue : Reconciler → Duration
blocked_requeue r =
    let resync = r.config.safety_resync_period in
    if ltb_ℤ (pos 0) resync && ltb_ℤ resync removal_blocked_requeue
    then resync
    else removal_blocked_requeue

-- `published.Annotations[LocationRemovalOverrideAnnotation] == "true"`
unfoldable pub has_override : ServingLocation → Bool
has_override published =
    index location_removal_override_annotation published.meta.annotations == "true"

module _ (V : Env) where
  -- `WaitForCacheSync`, whose refusal is an error
  abbrev pub require_synced : Error V.Failure → Bool → M V (Unit {0})
  require_synced e true = pure tt
  require_synced e false = raise e

  -- The end of `pruneAllowed`: no source location is left.
  abbrev pub require_empty_hub : List ServingLocation → M V (Unit {0})
  require_empty_hub [] = pure tt
  require_empty_hub (p ∷ ps) =
      metric_call V (count_conflict "" "EmptySourceList")
      >> raise (Error.empty_source (length (p ∷ ps)))

  unfoldable pub prune_allowed : M V (Unit {0})
  unfolding list_published
  prune_allowed = do
    source_ready ← query Call.source_sync V.source_synced
    require_synced Error.source_not_synced source_ready
    hub_ready ← query Call.hub_sync V.hub_synced
    require_synced Error.hub_not_synced hub_ready
    locations ← request V Call.listed_locations Error.listing_locations V.source_list
    let held_check = list_published V >>= require_empty_hub
    if is_empty locations then held_check else pure tt

  -- `locationPublishTimestamp.DeleteLabelValues(name)` and the three deletions that follow it
  unfoldable pub forget_metrics : String → M V (Unit {0})
  forget_metrics name =
      metric_call V (delete_label_values Gauge.location_publish_timestamp (name ∷ []))
      >> metric_call V
          (delete_partial_match Gauge.location_removal_blocked metric_label_location name)
      >> metric_call V (delete_label_values Gauge.location_matched_clusters (name ∷ []))
      >> metric_call V
          (delete_partial_match Gauge.location_publish_mismatch metric_label_location name)

  abbrev pub delete_serving_answer : String → Except V.Failure (Unit {0}) → M V (Unit {0})
  delete_serving_answer name (ok _) = pure tt
  delete_serving_answer name (err e) =
      if V.is_not_found e then pure tt else raise (Error.removing name e)

  -- `remove` from the delete on
  unfoldable pub delete_copy : String → ServingLocation → M V Result
  unfolding forget_metrics
  delete_copy name published = do
    query (Call.deleted_serving published) (V.hub_delete published) >>= delete_serving_answer name
    delete_propagation_policy V name
    forget_metrics name
    pure no_requeue

  module _ (r : Reconciler) where
    -- What `remove` does when the guard refuses.
    unfoldable pub retain_copy : String → ServingLocation → RemovalDecision → M V Result
    retain_copy name published decision = do
      metric_call V (set Gauge.location_removal_blocked (name ∷ decision.reason ∷ []) (pos 1))
      record_blocked V published decision
      pure (record { requeue_after = blocked_requeue r })

    unfoldable pub remove_guarded : String → ServingLocation → M V Result
    remove_guarded name published = do
      decision ← evaluate_removal_guard V name
      if decision.allowed then delete_copy name published else retain_copy name published decision

    -- `remove` behind `pruneAllowed`, given its answer
    unfoldable pub remove_pruned :
        String → ServingLocation → Except (Error V.Failure) (Unit {0}) → M V Result
    remove_pruned name published (err e) = pure (record { requeue_after = blocked_requeue r })
    remove_pruned name published (ok _) =
        if has_override published then delete_copy name published else remove_guarded name published

    unfoldable pub remove_published : String → Option ServingLocation → M V Result
    remove_published name none = forget_metrics name >> pure no_requeue
    remove_published name (some published) =
        if owns_object published.meta
        then attempt prune_allowed >>= remove_pruned name published
        else metric_call V (count_conflict name "UnlabelledHubObject") >> pure no_requeue

    unfoldable pub remove : String → M V Result
    unfolding remove_published
    remove name = read_published V name >>= remove_published name
