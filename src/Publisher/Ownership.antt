-- ===== src/Publisher/Ownership.antt =====
-- Constants of the publisher, which hub objects it owns, and `reportForeignManagers`.
use locations.Prelude.{String, Bool, false, not, Option, none, some, List, [], ◌∷◌}
use locations.Prelude.{◌==◌, ◌&&◌, ◌||◌, ◌<>◌, any, if◌then◌else◌}
use locations.Prelude.Effect.{pure, ◌>>◌}
use locations.Prelude.GoMap.{GoMap, index}
use locations.Prelude.Text.{quote}
use locations.Api.{Location, ServingLocation, ManagedFieldsEntry, ObjectMeta}
use locations.Config.{Duration, minutes}
use locations.Metrics.{count_conflict}
use locations.Publisher.Client.{Env, M, Reconciler, metric_call, send_event}

abbrev pub location_publisher_field_manager : String
location_publisher_field_manager = "network-services-operator-location-publisher"

abbrev pub location_publisher_managed_by_label : String
location_publisher_managed_by_label = "networking.datumapis.com/published-by"

abbrev pub location_publisher_managed_by_value : String
location_publisher_managed_by_value = "location-publisher"

abbrev pub location_removal_override_annotation : String
location_removal_override_annotation = "networking.datumapis.com/removal-override"

abbrev pub location_removal_blocked_annotation : String
location_removal_blocked_annotation = "networking.datumapis.com/removal-blocked"

abbrev pub removal_blocked_requeue : Duration
removal_blocked_requeue = minutes 5

abbrev pub managed_labels : GoMap
managed_labels = (location_publisher_managed_by_label, location_publisher_managed_by_value) ∷ []

-- `ownsObject`
abbrev pub owns_object : ObjectMeta → Bool
owns_object obj =
    index location_publisher_managed_by_label obj.labels == location_publisher_managed_by_value

abbrev has_key : String → List String → Bool
has_key k keys = any (λ j. j == k) keys

module _ (V : Env) where
  -- `ownsPublishedSpec`
  unfoldable pub owns_published_spec : ManagedFieldsEntry → Bool
  owns_published_spec entry = elim entry.fields_v1 [
    | none ↦ false
    | some raw ↦ elim (V.unmarshal raw) [ none ↦ false | some keys ↦ has_key "f:spec" keys ]
  ]

  -- The tests that the loop of `reportForeignManagers` passes an entry by.
  unfoldable pub is_foreign : ManagedFieldsEntry → Bool
  unfolding owns_published_spec
  is_foreign entry =
      if entry.manager == location_publisher_field_manager || entry.manager == ""
      then false
      else if not (entry.operation == "Apply") && not (entry.operation == "Update")
      then false
      else owns_published_spec entry

  -- one round of the loop
  unfoldable pub report_entry : Reconciler → String → String → ManagedFieldsEntry → M V (Unit {0})
  unfolding is_foreign send_event
  report_entry r location published entry =
      if is_foreign entry
      then metric_call V (count_conflict location "ForeignFieldManager")
        >> send_event V r location "Warning" "ForeignFieldManager" (
            "ServingLocation "
            <> quote V.is_print published
            <> " carries spec fields owned by "
            <> quote V.is_print entry.manager
            <> "; this publisher forces them back")
      else pure tt

  unfoldable pub report_entries :
      Reconciler → String → String → List ManagedFieldsEntry → M V (Unit {0})
  unfolding report_entry
  report_entries r location published [] = pure tt
  report_entries r location published (entry ∷ entries) =
      report_entry r location published entry >> report_entries r location published entries

  unfoldable pub report_foreign_managers :
      Reconciler → Location → Option ServingLocation → M V (Unit {0})
  unfolding report_entries
  report_foreign_managers r location none = pure tt
  report_foreign_managers r location (some published) =
      report_entries r location.meta.name published.meta.name published.meta.managed_fields
