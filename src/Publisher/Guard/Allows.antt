-- ===== src/Publisher/Guard/Allows.antt =====
-- What the removal guard promises: it allows a removal exactly when every Ready cluster claims some
-- other location.
use locations.Prelude.{String, true, false, some, List, [], ◌∷◌, arith}
use locations.Prelude.{
  ◌≡◌, refl, ◌≢◌, ◌↔◌, ◌⊎◌, inl, inr, eq_iff, Bool-cases, Option-cases, All, count_if, length,
}
use locations.Prelude.GoMap.{lookup}
use locations.Prelude.Text.Sort.{sort, sort-eq-nil}
use locations.Api.{serving_location_topology_label}
use locations.Publisher.Client.{Cluster}
use locations.Publisher.Guard.{
  Claim, karmada_cluster_ready, claim, is_labelled, is_unlabelled, names_where, guard_verdict,
  removal_decision, is_matched,
}

-- The cluster serves nowhere now, or it claims another location.
abbrev pub ServesElsewhere : String → Cluster → Type 0
ServesElsewhere name item =
    (karmada_cluster_ready item ≡ false)
    ⊎ ((v : String) × (lookup serving_location_topology_label item.labels ≡ some v)
        × (v ≢ name)
        × (v ≢ ""))

ServesElsewhere-iff-skipped :
    (name : String) (item : Cluster) → (claim name item ≡ Claim.skipped) ↔ ServesElsewhere name item
unfolding claim
ServesElsewhere-iff-skipped name item =
    elim (Option-cases (lookup serving_location_topology_label item.labels)) [
      | inl unset ↦ (λ h. inl (ground arith), λ h. ground arith)
      | inr (v, e) ↦ (
        λ h. elim (Bool-cases (karmada_cluster_ready item)) [
          | inl ready ↦ inr (v, e, ground (arith, eq_iff v name), ground (arith, eq_iff v ""))
          | inr not_ready ↦ inl not_ready
        ],
        λ h. ground (arith, eq_iff v name, eq_iff v ""),
      )
    ]

-- No name is filed either way exactly when each cluster is skipped.
names_where-eq-nil :
    (name : String) (items : List Cluster)
    → names_where is_labelled name items ≡ []
    → names_where is_unlabelled name items ≡ []
    → All (ServesElsewhere name) items
unfolding names_where
names_where-eq-nil name [] h k = tt
names_where-eq-nil name (item ∷ items) h k =
    ground (arith, (ServesElsewhere-iff-skipped name item).0, names_where-eq-nil name items)

names_where_of_skipped :
    (name : String) (items : List Cluster)
    → All (ServesElsewhere name) items
    → (names_where is_labelled name items ≡ []) × (names_where is_unlabelled name items ≡ [])
unfolding names_where
names_where_of_skipped name [] h = (refl, refl)
names_where_of_skipped name (item ∷ items) (h, k) =
    rw ((ServesElsewhere-iff-skipped name item).1 h) (names_where_of_skipped name items k)

guard_verdict_allowed :
    (ls us : List String) → (guard_verdict ls us).allowed ≡ true → (ls ≡ []) × (us ≡ [])
unfolding guard_verdict
guard_verdict_allowed [] [] h = (refl, refl)
guard_verdict_allowed [] (u ∷ us) h = cc
guard_verdict_allowed (l ∷ ls) us h = cc

-- The guard allows the removal of a location exactly when each cluster of the hub is not Ready, or
-- carries a location label that is not empty and names another location.
pub removal_decision-allowed_iff :
    (name : String) (items : List Cluster)
    → ((removal_decision name items).allowed ≡ true) ↔ All (ServesElsewhere name) items
unfolding removal_decision sort guard_verdict
removal_decision-allowed_iff name items = (
  λ h.
      let both = guard_verdict_allowed _ _ h in
      names_where-eq-nil name items (sort-eq-nil _ both.0) (sort-eq-nil _ both.1),
  λ h. let both = names_where_of_skipped name items h in rw (both.0, both.1) refl,
)

-- The counts of the gauge and of the guard are of the same clusters.
is_matched-eq-claim :
    (name : String) (item : Cluster)
    → name ≢ ""
    → is_matched name item ≡ is_labelled (claim name item)
unfolding is_matched claim
is_matched-eq-claim name item h =
    elim (Option-cases (lookup serving_location_topology_label item.labels)) [
      | inl unset ↦ ground (arith, eq_iff "" name)
      | inr (v, e) ↦ ground (arith, eq_iff v name)
    ]

-- For a location whose name is not empty, the clusters that the gauge of matched clusters counts are as
-- many as those that the removal guard names as still labelled for it.
pub count_if-matched :
    (name : String) (items : List Cluster)
    → name ≢ ""
    → count_if (is_matched name) items ≡ length (names_where is_labelled name items)
unfolding names_where
count_if-matched name [] h = refl
count_if-matched name (item ∷ items) h =
    ground (arith, is_matched-eq-claim name item h, count_if-matched name items h)
