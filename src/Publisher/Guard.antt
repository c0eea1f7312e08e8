-- ===== src/Publisher/Guard.antt =====
-- The removal guard: `karmadaClusterReady` and `evaluateRemovalGuard`, and `refreshMatchedClusters`,
-- which counts the same clusters.
pub mod Allows
pub mod Order
use locations.Prelude.{ℕ, String, Bool, true, false, Option, none, some, List, [], ◌∷◌, map}
use locations.Prelude.{◌==◌, ◌<>◌, ◌&&◌, any, length, select, count_if, is_empty, if◌then◌else◌}
use locations.Prelude.Int.{pos}
use locations.Prelude.Effect.{Except, ok, err, pure, attempt, ◌>>=◌}
use locations.Prelude.GoMap.{index, lookup}
use locations.Prelude.Text.{join, decimal}
use locations.Prelude.Text.Sort.{sort}
use locations.Api.{serving_location_topology_label, condition_true}
use locations.Metrics.{Gauge, set}
use locations.Publisher.Client.{
  Env, Call, Error, M, Scalar, RawCondition, NestedSlice, Cluster, request, metric_call, text,
  not_text, object, not_object, failed, missing, found,
}
use locations.Publisher.Hub.{RemovalDecision}

-- `condition[key] == value`, where a missing key reads nil
abbrev entry_is : String → String → List (String × Scalar) → Bool
entry_is key value [] = false
entry_is key value ((k, text t) ∷ rest) = if k == key then t == value else entry_is key value rest
entry_is key value ((k, not_text) ∷ rest) = if k == key then false else entry_is key value rest

abbrev is_ready_condition : RawCondition → Bool
is_ready_condition not_object = false
is_ready_condition (object c) = entry_is "type" "Ready" c && entry_is "status" condition_true c

unfoldable pub karmada_cluster_ready : Cluster → Bool
karmada_cluster_ready item = elim item.conditions [
  | failed ↦ false
  | missing ↦ false
  | found conditions ↦ any is_ready_condition conditions
]

-- Where the loop of `evaluateRemovalGuard` files a cluster.
pub data Claim : Type 0 where
  labelled unlabelled skipped : Claim

abbrev claim_by_label : String → Option String → Claim
claim_by_label name none = Claim.unlabelled
claim_by_label name (some value) =
    if value == name
    then Claim.labelled
    else if value == ""
    then Claim.unlabelled
    else Claim.skipped

unfoldable pub claim : String → Cluster → Claim
claim name item =
    if karmada_cluster_ready item
    then claim_by_label name (lookup serving_location_topology_label item.labels)
    else Claim.skipped

abbrev pub is_labelled : Claim → Bool
is_labelled Claim.labelled = true
is_labelled Claim.unlabelled = false
is_labelled Claim.skipped = false

abbrev pub is_unlabelled : Claim → Bool
is_unlabelled Claim.labelled = false
is_unlabelled Claim.unlabelled = true
is_unlabelled Claim.skipped = false

abbrev pub cluster_name : Cluster → String
cluster_name item = item.name

-- The names of the clusters filed one way, in order.
unfoldable pub names_where : (Claim → Bool) → String → List Cluster → List String
names_where p name [] = []
names_where p name (item ∷ items) =
    let rest = names_where p name items in if p (claim name item) then item.name ∷ rest else rest

-- The part of `evaluateRemovalGuard` behind the loop.
unfoldable pub guard_verdict : List String → List String → RemovalDecision
guard_verdict [] [] = record { allowed = true; reason = ""; message = "" }
guard_verdict [] (u ∷ us) = record {
  allowed = false;
  reason = "FleetNotFullyLabelled";
  message =
      "no cluster claims this location, but "
      <> decimal (length (u ∷ us))
      <> " Ready cluster(s) carry no location label at all: "
      <> join (u ∷ us) ", ";
}
guard_verdict (l ∷ ls) us = record {
  allowed = false;
  reason = "ClustersStillServing";
  message = "clusters still labelled for this location: " <> join (l ∷ ls) ", ";
}

unfoldable pub removal_decision : String → List Cluster → RemovalDecision
removal_decision name items =
    guard_verdict (sort (names_where is_labelled name items))
      (sort (names_where is_unlabelled name items))

-- The test of the loop in `refreshMatchedClusters`.
unfoldable pub is_matched : String → Cluster → Bool
is_matched name item =
    karmada_cluster_ready item && index serving_location_topology_label item.labels == name

module _ (V : Env) where
  abbrev list_clusters : M V (List Cluster)
  list_clusters = request V Call.listed_clusters Error.listing_clusters V.hub_clusters

  unfoldable pub evaluate_removal_guard : String → M V RemovalDecision
  evaluate_removal_guard name = do clusters ← list_clusters; pure (removal_decision name clusters)

  abbrev pub set_matched : String → Except (Error V.Failure) (List Cluster) → M V (Unit {0})
  set_matched name (err e) = pure tt
  set_matched name (ok items) =
      metric_call V
        (set Gauge.location_matched_clusters (name ∷ []) (pos (count_if (is_matched name) items)))

  unfoldable pub refresh_matched_clusters : String → M V (Unit {0})
  refresh_matched_clusters name = do clusters ← attempt list_clusters; set_matched name clusters
