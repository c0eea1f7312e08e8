-- ===== src/Publisher/Policy.antt =====
-- `applyPropagationPolicy`, `deletePropagationPolicy`, and the way back from a policy's name to the
-- location that it belongs to.
pub mod Owner
use locations.Prelude.{String, List, [], ◌∷◌, map}
use locations.Prelude.{◌==◌, ◌<>◌, if◌then◌else◌}
use locations.Prelude.Effect.{Except, ok, err, pure, raise, query, ◌>>=◌}
use locations.Prelude.Text.Prefix.{trim_prefix}
use locations.Api.{group_version, serving_location_topology_label}
use locations.Config.{LocationScopedResource}
use locations.Publisher.Client.{
  Env, Call, Error, M, Reconciler, ResourceSelector, PropagationPolicy, request, by_name, by_labels,
}
use locations.Publisher.Ownership.{managed_labels, location_publisher_field_manager}

-- `locationPropagationPolicyName`
unfoldable pub location_propagation_policy_name : String → String
location_propagation_policy_name name = "location-" <> name

-- The selector of one entry of `LocationScopedResources`.
abbrev pub scoped_selector : String → LocationScopedResource → ResourceSelector
scoped_selector name scoped =
    by_labels scoped.api_version scoped.kind ((scoped.location_label, name) ∷ [])

-- The policy that `applyPropagationPolicy` builds.
unfoldable pub propagation_policy : List LocationScopedResource → String → PropagationPolicy
propagation_policy scoped name = record {
  name = location_propagation_policy_name name;
  labels = managed_labels;
  conflict_resolution = "Overwrite";
  resource_selectors =
      by_name group_version "ServingLocation" name ∷ map (scoped_selector name) scoped;
  cluster_match_labels = (serving_location_topology_label, name) ∷ [];
}

-- What a failed delete returns: nothing if the object was gone already.
abbrev pub delete_answer :
    (V : Env) → (V.Failure → Error V.Failure) → Except V.Failure (Unit {0}) → M V (Unit {0})
delete_answer V w (ok _) = pure tt
delete_answer V w (err e) = if V.is_not_found e then pure tt else raise (w e)

module _ (V : Env) where
  unfoldable pub apply_propagation_policy : Reconciler → String → M V (Unit {0})
  apply_propagation_policy r name =
      let policy = propagation_policy r.config.location_scoped_resources name in
      request V (Call.applied_policy policy) (Error.applying_policy name)
        (V.hub_apply_policy location_publisher_field_manager policy)

  unfoldable pub delete_propagation_policy : String → M V (Unit {0})
  delete_propagation_policy name =
      let policy = location_propagation_policy_name name in
      query (Call.deleted_policy policy) (V.hub_delete_policy policy)
      >>= delete_answer V (Error.removing_policy name)

-- `enqueuePolicyOwner`: the location to reconcile when a policy changes.
unfoldable pub enqueue_policy_owner : String → List String
enqueue_policy_owner policy =
    let name = trim_prefix policy "location-" in if name == policy then [] else name ∷ []

-- `enqueueByName`
abbrev pub enqueue_by_name : String → List String
enqueue_by_name name = name ∷ []
