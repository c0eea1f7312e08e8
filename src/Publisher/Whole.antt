-- ===== src/Publisher/Whole.antt =====
-- To compute a whole run: a test that unfolds `whole` sees through every operation of the publisher.
use locations.Prelude.Text.{quote, decimal}
use locations.Prelude.Text.Sort.{sort}
use locations.Prelude.Text.Trim.{trim_space}
use locations.Prelude.Effect.{runs}
use locations.Publisher.Client.{send_event}
use locations.Publisher.Ownership.{report_foreign_managers}
use locations.Publisher.Policy.{
  location_propagation_policy_name, propagation_policy, apply_propagation_policy,
  delete_propagation_policy,
}
use locations.Publisher.Hub.{read_published, list_published, record_blocked, clear_blocked}
use locations.Publisher.Guard.{
  karmada_cluster_ready, claim, names_where, guard_verdict, removal_decision, is_matched,
  evaluate_removal_guard, refresh_matched_clusters,
}
use locations.Publisher.Publish.{
  trimmed_city_code, keep_published_at, desired_copy, is_unowned, write_copy, publish_owned,
  publish_with_city, publish,
}
use locations.Publisher.Removal.{
  blocked_requeue, has_override, prune_allowed, forget_metrics, delete_copy, retain_copy,
  remove_guarded, remove_pruned, remove_published, remove,
}
use locations.Publisher.Reconcile.{
  is_publishable, is_retained, is_live, set_fleet_metrics, refresh_fleet_metrics, act, then_refresh,
  reconcile,
}

unfoldable pub whole : Unit {0}
unfolding quote decimal sort trim_space runs send_event report_foreign_managers
    location_propagation_policy_name propagation_policy apply_propagation_policy
    delete_propagation_policy read_published list_published record_blocked clear_blocked
    karmada_cluster_ready claim names_where guard_verdict removal_decision is_matched
    evaluate_removal_guard refresh_matched_clusters trimmed_city_code keep_published_at desired_copy
    is_unowned write_copy publish_owned publish_with_city publish blocked_requeue has_override
    prune_allowed forget_metrics delete_copy retain_copy remove_guarded remove_pruned
    remove_published remove is_publishable is_retained is_live set_fleet_metrics
    refresh_fleet_metrics act then_refresh reconcile
whole = tt
