-- ===== src/Wiring/Setup.antt =====
-- The four `SetupWithManager` functions.
use locations.Prelude.{String, Bool, true, false, Option, none, some, List, [], ◌∷◌}
use locations.Prelude.{◌||◌, if◌then◌else◌}
use locations.Prelude.Effect.{Except, ok, err, raise, ◌>>◌}
use locations.Api.{LocationClass}
use locations.Class.Index.{
  Object, location_class_ref_index, index_locations_by_class, enqueue_local_class,
}
use locations.Publisher.Policy.{enqueue_by_name, enqueue_policy_owner}
use locations.Readiness.Client as Reporting
use locations.Readiness.Report.{enqueue_locations_naming_class}
use locations.Wiring.Client.{
  Env, Call, Error, M, request, Origin, Watch, Reconciler, PublisherReconciler,
}

-- The first, unless it is nil.
abbrev pub or_default : {A : Type 0} → A → Option A → Option A
or_default a none = some a
or_default a (some b) = some b

abbrev pub is_nil : {A : Type 0} → Option A → Bool
is_nil none = true
is_nil (some a) = false

-- A handler that computes the requests from the object alone.
abbrev pub by_object : {A S : Type 0} → (A → List String) → A → S → List String × S
by_object f a s = (f a, s)

-- What an error leaves of the requests: none.
abbrev pub answered : {E : Type 0} → Except E (List String) → List String
answered (ok names) = names
answered (err e) = []

module _ (V : Env) where
  abbrev pub with_defaults :
      String → Reconciler V.ClientOf V.RecorderOf → Reconciler V.ClientOf V.RecorderOf
  with_defaults name r = record {
    client = or_default V.manager_client r.client;
    recorder = or_default (V.event_recorder name) r.recorder;
  }

  -- The watch that `For` installs on the manager's cache.
  abbrev pub for_locations : Watch V.reporting.State
  for_locations = Watch.of_locations Origin.manager_cache (by_object λ l. V.for_object l.meta.name)

  abbrev pub for_classes : Watch V.reporting.State
  for_classes = Watch.of_classes Origin.manager_cache (by_object λ c. V.for_object c.meta.name)

  -- `enqueueLocationsNamingClass` as a handler
  unfoldable pub locations_naming_class :
      Reporting.Reconciler → LocationClass → V.reporting.State → List String × V.reporting.State
  unfolding enqueue_locations_naming_class
  locations_naming_class r c s =
      let (answer, s', calls) = enqueue_locations_naming_class V.reporting r c s in
      (answered answer, s')

  unfoldable pub class_watches : List (Watch V.reporting.State)
  class_watches =
      for_classes
      ∷ Watch.of_locations Origin.manager_cache
          (by_object λ l. enqueue_local_class (Object.location l))
      ∷ []

  -- `(*LocationClassReconciler).SetupWithManager`
  unfoldable pub setup_location_class : Reconciler V.ClientOf V.RecorderOf → M V (Unit {0})
  setup_location_class r =
      let filled = with_defaults "location-class" r in
      request V (Call.indexed location_class_ref_index index_locations_by_class) Error.indexing
        (V.index_field location_class_ref_index index_locations_by_class)
      >> request V (Call.completed "location_class" class_watches filled) Error.completing
          (V.complete "location_class" class_watches filled)

  unfoldable pub readiness_watches : Reporting.Reconciler → List (Watch V.reporting.State)
  readiness_watches r =
      for_locations ∷ Watch.of_classes Origin.manager_cache (locations_naming_class r) ∷ []

  -- `(*LocationReadinessReconciler).SetupWithManager`
  unfoldable pub setup_location_readiness :
      Reporting.Reconciler → Reconciler V.ClientOf V.RecorderOf → M V (Unit {0})
  setup_location_readiness named r =
      let filled = with_defaults "location-readiness" r in
      let watches = readiness_watches named in
      request V (Call.completed "location_readiness" watches filled) Error.completing
        (V.complete "location_readiness" watches filled)

  -- `(*LocationClassAcceptedReconciler).SetupWithManager`
  unfoldable pub setup_location_class_accepted : Reconciler V.ClientOf V.RecorderOf → M V (Unit {0})
  setup_location_class_accepted r =
      let filled = with_defaults "location-class-accepted" r in
      let watches = for_classes ∷ [] in
      request V (Call.completed "location_class_accepted" watches filled) Error.completing
        (V.complete "location_class_accepted" watches filled)

  unfoldable pub publisher_watches : List (Watch V.reporting.State)
  publisher_watches =
      Watch.of_locations Origin.source_cache (by_object λ l. enqueue_by_name l.meta.name)
      ∷ Watch.of_copies Origin.hub_cache (by_object λ p. enqueue_by_name p.meta.name)
      ∷ Watch.of_policies Origin.hub_cache (by_object enqueue_policy_owner)
      ∷ []

  -- `(*LocationPublisherReconciler).SetupWithManager`
  unfoldable pub setup_location_publisher :
      PublisherReconciler V.ClusterOf V.RecorderOf → M V (Unit {0})
  setup_location_publisher r =
      let filled = record r {
        recorder = or_default (V.event_recorder "location-publisher") r.recorder;
      } in
      if is_nil r.source_cluster || is_nil r.hub_cluster
      then raise Error.clusters_required
      else request V (Call.completed_publisher "location_publisher" publisher_watches filled)
          Error.completing (V.complete_publisher "location_publisher" publisher_watches filled)
