-- ===== src/Tests/Publisher.antt =====
-- The publisher over a source and a hub in memory.
use mathlib.Core.List.{Perm, Permᴰ}
use locations.Prelude.{
  String, true, false, some, List, [], ◌∷◌, ◌≡◌, ◌≢◌, ◌⊎◌, refl, ◌↔◌, All, length, count_if, ◌==◌,
  if◌then◌else◌,
}
use locations.Prelude.Int.{pos, ltb_ℤ}
use locations.Prelude.Text.Trim.{trim_space}
use locations.Publisher.Outcome.{Outcome}
use locations.Prelude.Trace.{Justified, Emits}
use locations.Publisher.Client.{Cluster}
use locations.Publisher.Ownership.{removal_blocked_requeue}
use locations.Publisher.Guard.{removal_decision, is_matched, names_where, is_labelled}
use locations.Publisher.Guard.Allows.{
  ServesElsewhere, removal_decision-allowed_iff, count_if-matched,
}
use locations.Publisher.Guard.Order.{removal_decision-perm}
use locations.Publisher.Policy.{enqueue_policy_owner, location_propagation_policy_name}
use locations.Publisher.Policy.Owner.{enqueue_policy_owner_iff}
use locations.Publisher.Publish.{publish, keep_published_at, desired_copy, trimmed_city_code}
use locations.Publisher.Publish.Republish.{keep_published_at-desired_copy}
use locations.Publisher.Removal.{blocked_requeue}
use locations.Publisher.Removal.Requeue.{blocked_requeue_bounds}
use locations.Publisher.Reconcile.{reconcile}
use locations.Publisher.Whole.{whole}
use locations.Publisher.Deletion.{Justification, IsNotDelete}
use locations.Publisher.Deletion.Justified.{reconcile-Justified}
use locations.Publisher.Deletion.Harmless.{publish-Emits}
use locations.Publisher.Writing
use locations.Publisher.Writing.Justified.{reconcile-Written}
use locations.Tests.Memory.{memory, claiming, leaving, publisher, place}

-- The run deletes the copy and the policy.
leaving_run : (reconcile memory publisher "iad" leaving).1.copies ≡ []
unfolding whole
leaving_run = refl

-- The run publishes the other location beside the copy that is there.
staying_run : length (reconcile memory publisher "fra" leaving).1.copies ≡ 2
unfolding whole
staying_run = refl

reconcile-Justified_example :
    Justified (Justification memory "iad") [] (reconcile memory publisher "iad" leaving).2
reconcile-Justified_example = reconcile-Justified memory "iad" publisher leaving

reconcile-Written_example :
    Justified
      (Writing.Justification memory publisher "fra")
      []
      (reconcile memory publisher "fra" leaving).2
reconcile-Written_example = reconcile-Written memory publisher "fra" leaving

publish-Emits_example : Emits (IsNotDelete memory) (publish memory publisher (place "fra" "FRA"))
publish-Emits_example = publish-Emits memory publisher (place "fra" "FRA")

abbrev two : List Cluster
two = claiming "c1" "fra" ∷ claiming "c2" "iad" ∷ []

removal_decision-allowed_iff_example :
    ((removal_decision "iad" two).allowed ≡ true) ↔ All (ServesElsewhere "iad") two
removal_decision-allowed_iff_example = removal_decision-allowed_iff "iad" two

abbrev swapped : List Cluster
swapped = claiming "c2" "iad" ∷ claiming "c1" "fra" ∷ []

two-swapped : Perm two swapped
two-swapped = ∣ Permᴰ.swap refl refl ∣₁

removal_decision-perm_example : removal_decision "iad" two ≡ removal_decision "iad" swapped
removal_decision-perm_example = removal_decision-perm "iad" two-swapped

iad_named : ◌≢◌ {A = String} "iad" ""
iad_named e = cc

count_if-matched_example :
    count_if (is_matched "iad") two ≡ length (names_where is_labelled "iad" two)
count_if-matched_example = count_if-matched "iad" two iad_named

enqueue_policy_owner_iff_example :
    (enqueue_policy_owner "location-iad" ≡ "iad" ∷ [])
    ↔ ("location-iad" ≡ location_propagation_policy_name "iad")
enqueue_policy_owner_iff_example = enqueue_policy_owner_iff "location-iad" "iad"

blocked_requeue_bounds_example :
    (ltb_ℤ (pos 0) (blocked_requeue publisher) ≡ true)
    × (ltb_ℤ removal_blocked_requeue (blocked_requeue publisher) ≡ false)
    × ((ltb_ℤ (pos 0) publisher.config.safety_resync_period ≡ false)
        ⊎ (ltb_ℤ publisher.config.safety_resync_period (blocked_requeue publisher) ≡ false))
blocked_requeue_bounds_example = blocked_requeue_bounds publisher

-- The time of publication of a padded city code changes at each run.
keep_published_at-desired_copy_example :
    keep_published_at
      (pos 9)
      (some (desired_copy (place "fra" " FRA") (pos 5)))
      (place "fra" " FRA")
      (trimmed_city_code (place "fra" " FRA"))
    ≡ (if " FRA" == trim_space " FRA" then pos 5 else pos 9)
keep_published_at-desired_copy_example =
    keep_published_at-desired_copy (place "fra" " FRA") (pos 5) (pos 9) (refl, tt)
