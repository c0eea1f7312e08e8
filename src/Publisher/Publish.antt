-- ===== src/Publisher/Publish.antt =====
-- `publish` and `publishedContentEqual`.
pub mod Republish
use locations.Prelude.{String, Bool, true, false, Option, none, some, List, [], ◌∷◌}
use locations.Prelude.{◌==◌, ◌<>◌, ◌&&◌, not, all, eqb, length, if◌then◌else◌}
use locations.Prelude.Effect.{Except, ok, err, pure, query, ◌>>=◌, ◌>>◌}
use locations.Prelude.GoMap.{GoMap, index}
use locations.Prelude.Int.{pos}
use locations.Prelude.Text.{quote}
use locations.Prelude.Text.Trim.{trim_space}
use locations.Api.{Time, ObjectMeta, Location, ServingLocation, city_code, topology_city_code_key}
use locations.Metrics.{
  Gauge, set, delete_label_values, delete_partial_match, count_conflict, metric_label_location,
}
use locations.Publisher.Client.{
  Env, Call, Error, M, Reconciler, Result, request, metric_call, send_event,
}
use locations.Publisher.Ownership.{
  owns_object, managed_labels, report_foreign_managers, location_publisher_field_manager,
  location_publisher_managed_by_label,
}
use locations.Publisher.Policy.{apply_propagation_policy}
use locations.Publisher.Hub.{read_published, clear_blocked}
use locations.Publisher.Guard.{refresh_matched_clusters}

-- The city code that `publish` and `refreshFleetMetrics` read.
unfoldable pub trimmed_city_code : Location → String
trimmed_city_code location = trim_space (index topology_city_code_key location.spec.topology)

-- The loop of `publishedContentEqual`: every entry of the first map reads alike in the second.
abbrev pub reads_alike : GoMap → GoMap → Bool
reads_alike m n = all (λ e. index e.0 n == e.1) m

unfoldable pub published_content_equal : ServingLocation → Location → String → Bool
published_content_equal published location city =
    eqb published.spec.source.generation location.meta.generation
    && city_code published == city
    && eqb (length published.spec.topology) (length location.spec.topology)
    && reads_alike location.spec.topology published.spec.topology

-- `publishedAt`: that of the published copy if its content has not changed
unfoldable pub keep_published_at : Time → Option ServingLocation → Location → String → Time
unfolding published_content_equal
keep_published_at now none location city = now
keep_published_at now (some published) location city =
    if published_content_equal published location city
    then published.spec.source.published_at
    else now

-- `desired`
unfoldable pub desired_copy : Location → Time → ServingLocation
desired_copy location published_at = record {
  meta = record {
    name = location.meta.name;
    labels = managed_labels;
    annotations = [];
    finalizers = [];
    generation = 0;
    deletion_timestamp = none;
    managed_fields = [];
  };
  spec = record {
    topology = location.spec.topology;
    source = record { generation = location.meta.generation; published_at = published_at };
  };
}

-- `published != nil && !r.ownsObject(published)`
unfoldable pub is_unowned : Option ServingLocation → Bool
is_unowned none = false
is_unowned (some published) = not (owns_object published.meta)

abbrev pub no_requeue : Result
no_requeue = record { requeue_after = pos 0 }

module _ (V : Env) (r : Reconciler) where
  unfoldable pub refuse_without_city : Location → M V Result
  unfolding send_event
  refuse_without_city location =
      let name = location.meta.name in
      metric_call V (set Gauge.location_publish_mismatch (name ∷ "MissingCityCode" ∷ []) (pos 1))
      >> send_event V r name "Warning" "MissingCityCode" (
          "Location "
          <> quote V.is_print name
          <> " carries no "
          <> topology_city_code_key
          <> ", so it cannot be published")
      >> pure no_requeue

  unfoldable pub refuse_unlabelled : Location → M V Result
  unfolding send_event
  refuse_unlabelled location =
      let name = location.meta.name in
      metric_call V (count_conflict name "UnlabelledHubObject")
      >> send_event V r name "Warning" "UnlabelledHubObject" (
          "ServingLocation "
          <> quote V.is_print name
          <> " on the hub carries no "
          <> location_publisher_managed_by_label
          <> " label and is not owned by this publisher")
      >> pure no_requeue

  -- The calls of `publish` from the apply on.
  unfoldable pub write_copy : Location → Option ServingLocation → Time → M V Result
  write_copy location published published_at =
      let name = location.meta.name in
      let desired = desired_copy location published_at in
      request V (Call.applied_serving desired) (Error.publishing name)
        (V.hub_apply location_publisher_field_manager desired)
      >> apply_propagation_policy V r name
      >> clear_blocked V published
      >> metric_call V (set Gauge.location_publish_timestamp (name ∷ []) published_at)
      >> metric_call V
          (delete_partial_match Gauge.location_removal_blocked metric_label_location name)
      >> refresh_matched_clusters V name
      >> pure (record { requeue_after = r.config.safety_resync_period })

  -- `publish` behind the test of ownership
  unfoldable pub publish_owned : Location → Option ServingLocation → String → M V Result
  publish_owned location published city = do
    report_foreign_managers V r location published
    now ← query Call.read_clock V.now
    write_copy location published (keep_published_at now published location city)

  unfoldable pub publish_with_city : Location → String → M V Result
  unfolding refuse_unlabelled
  publish_with_city location city = do
    metric_call V (
        delete_label_values Gauge.location_publish_mismatch
          (location.meta.name ∷ "MissingCityCode" ∷ []))
    published ← read_published V location.meta.name
    if is_unowned published
        then refuse_unlabelled location
        else publish_owned location published city

  unfoldable pub publish : Location → M V Result
  unfolding refuse_without_city
  publish location =
      let city = trimmed_city_code location in
      if city == "" then refuse_without_city location else publish_with_city location city
