-- ===== src/Publisher/Client.antt =====
-- What the publisher in internal/controller/location_publisher_controller.go talks to: the clients
-- of the source and the hub cluster, the clock, metrics and events.
use locations.Prelude.{ℕ, String, Bool, Option, List}
use locations.Prelude.{if◌then◌else◌}
use locations.Prelude.Effect.{Except, Action, query, wrap, note, pure, ◌>>=◌}
use locations.Prelude.GoMap.{GoMap}
use locations.Api.{Time, Location, ServingLocation}
use locations.Config.{Duration, LocationPublisherConfig}
use locations.Metrics.{MetricCall}

-- A value in a condition of an unstructured object; only equality with a text is ever asked.
pub data Scalar : Type 0 where
  text : String → Scalar
  not_text : Scalar

-- An element of `status.conditions`: a `map[string]any`, or something else.
pub data RawCondition : Type 0 where
  object : List (String × Scalar) → RawCondition
  not_object : RawCondition

-- What `unstructured.NestedSlice(obj.Object, "status", "conditions")` returns.
pub data NestedSlice : Type 0 where
  failed : NestedSlice
  missing : NestedSlice
  found : List RawCondition → NestedSlice

-- A Karmada `Cluster`, as far as it is read.
pub record Cluster : Type 0 where
  pub name : String
  pub labels : GoMap
  pub conditions : NestedSlice

-- An entry of `spec.resourceSelectors`.
pub data ResourceSelector : Type 0 where
  by_name : (api_version kind name : String) → ResourceSelector
  by_labels : (api_version kind : String) → GoMap → ResourceSelector

-- A Karmada `ClusterPropagationPolicy`, as the publisher writes it.
pub record PropagationPolicy : Type 0 where
  pub name : String
  pub labels : GoMap
  pub conflict_resolution : String
  pub resource_selectors : List ResourceSelector
  pub cluster_match_labels : GoMap

-- The clients, over the unknown state of both clusters. `Failure` is an error of a client.
pub record Env : Type 1 where
  pub State : Type 0
  pub Failure : Type 0
  -- `apierrors.IsNotFound`
  pub is_not_found : Failure → Bool
  pub source_get : String → State → Except Failure Location × State
  pub source_list : State → Except Failure (List Location) × State
  -- `WaitForCacheSync` within the time limit
  pub source_synced : State → Bool × State
  pub hub_synced : State → Bool × State
  pub hub_get : String → State → Except Failure ServingLocation × State
  -- `List` with `MatchingLabels{key: value}`
  pub hub_list : String → String → State → Except Failure (List ServingLocation) × State
  -- the list of clusters, past the cache
  pub hub_clusters : State → Except Failure (List Cluster) × State
  -- a server-side apply in the name of a field manager, with forced ownership
  pub hub_apply : String → ServingLocation → State → Except Failure (Unit {0}) × State
  pub hub_apply_policy : String → PropagationPolicy → State → Except Failure (Unit {0}) × State
  -- a merge patch from the first object to the second
  pub hub_patch : ServingLocation → ServingLocation → State → Except Failure (Unit {0}) × State
  pub hub_delete : ServingLocation → State → Except Failure (Unit {0}) × State
  pub hub_delete_policy : String → State → Except Failure (Unit {0}) × State
  -- `time.Now`
  pub now : State → Time × State
  -- the keys of a JSON object: `json.Unmarshal` into a `map[string]any`, `none` on an error
  pub unmarshal : String → Option (List String)
  -- `strconv.IsPrint` above U+00FF
  pub is_print : ℕ → Bool

pub data Call (F : Type 0) : Type 0 where
  got_location : String → Except F Location → Call F
  listed_locations : Except F (List Location) → Call F
  source_sync hub_sync : Bool → Call F
  got_published : String → Except F ServingLocation → Call F
  listed_published : Except F (List ServingLocation) → Call F
  listed_clusters : Except F (List Cluster) → Call F
  applied_serving : ServingLocation → Except F (Unit {0}) → Call F
  applied_policy : PropagationPolicy → Except F (Unit {0}) → Call F
  patched_serving : ServingLocation → ServingLocation → Except F (Unit {0}) → Call F
  deleted_serving : ServingLocation → Except F (Unit {0}) → Call F
  deleted_policy : String → Except F (Unit {0}) → Call F
  read_clock : Time → Call F
  metric : MetricCall → Call F
  -- `Recorder.Eventf` on the object of this name: type, reason and message
  event : (name type reason message : String) → Call F

-- The errors that the publisher's functions return, one for each place.
pub data Error (F : Type 0) : Type 0 where
  reading_location : String → F → Error F
  reading_published : String → F → Error F
  publishing : String → F → Error F
  applying_policy : String → F → Error F
  clearing_blocked recording_blocked : F → Error F
  listing_clusters listing_locations listing_published : F → Error F
  removing : String → F → Error F
  removing_policy : String → F → Error F
  source_not_synced hub_not_synced : Error F
  empty_source : ℕ → Error F

-- `LocationPublisherReconciler`: its part of the configuration, and whether it has a recorder.
pub record Reconciler : Type 0 where
  pub config : LocationPublisherConfig
  pub recorder : Bool

-- `ctrl.Result`
pub record Result : Type 0 where
  pub requeue_after : Duration

abbrev pub M : Env → Type 0 → Type 0
M V A = Action V.State (Error V.Failure) (Call V.Failure) A

module _ (V : Env) where
  abbrev pub metric_call : MetricCall → M V (Unit {0})
  metric_call c = note (Call.metric c)

  -- A client call whose error is wrapped and returned.
  abbrev pub request :
      {A : Type 0}
      → (Except V.Failure A → Call V.Failure)
      → (V.Failure → Error V.Failure)
      → (V.State → Except V.Failure A × V.State)
      → M V A
  request record_of w q = query record_of q >>= wrap w

  -- `(*LocationPublisherReconciler).event`
  unfoldable pub send_event : Reconciler → (name type reason message : String) → M V (Unit {0})
  send_event r name type reason message =
      if r.recorder then note (Call.event name type reason message) else pure tt
