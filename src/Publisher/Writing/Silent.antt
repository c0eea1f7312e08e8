-- ===== src/Publisher/Writing/Silent.antt =====
-- The parts of the publisher that write neither a copy nor a policy.
use locations.Prelude.{
  String, Bool, true, false, Option, none, some, List, [], ◌∷◌, arith, is_empty,
}
use locations.Prelude.Effect.{Except, ok, err, runs, pure, ◌>>◌}
use locations.Prelude.Trace.{
  Emits, bind-Emits, request-Emits, query-Emits, note-Emits, pure-Emits, raise-Emits, if-Emits,
  attempt-Emits,
}
use locations.Api.{Location, ServingLocation, ManagedFieldsEntry}
use locations.Publisher.Client.{Env, Call, Error, Reconciler, metric_call}
use locations.Metrics.{count_conflict}
use locations.Publisher.Ownership.{report_foreign_managers, report_entries, report_entry}
use locations.Publisher.Policy.{delete_propagation_policy}
use locations.Publisher.Hub.{list_published}
use locations.Publisher.Guard.{refresh_matched_clusters, evaluate_removal_guard}
use locations.Publisher.Publish.{refuse_without_city, refuse_unlabelled, no_requeue}
use locations.Publisher.Removal.{
  forget_metrics, prune_allowed, require_synced, require_empty_hub, delete_copy,
  delete_serving_answer,
}
use locations.Publisher.Reconcile.{refresh_fleet_metrics, set_fleet_metrics}
use locations.Publisher.Writing.{IsSilent}

module _ (V : Env) (r : Reconciler) where
  abbrev Q : Call V.Failure → Type 0
  Q = IsSilent V r

  set_fleet_metrics-Emits :
      (ls : List Location) (ps : List ServingLocation) → Emits Q (set_fleet_metrics V ls ps)
  unfolding set_fleet_metrics runs
  set_fleet_metrics-Emits ls ps = record { all = λ s. ground arith }

  pub refresh_matched_clusters-Emits : (name : String) → Emits Q (refresh_matched_clusters V name)
  unfolding refresh_matched_clusters runs
  refresh_matched_clusters-Emits name = record { all = λ s. ground arith }

  list_published-Emits : Emits Q (list_published V)
  unfolding list_published
  list_published-Emits = request-Emits Q _ _ _ (λ _. tt)

  pub refresh_fleet_metrics-Emits : Emits Q (refresh_fleet_metrics V)
  unfolding refresh_fleet_metrics
  refresh_fleet_metrics-Emits =
      bind-Emits Q _ _
        (attempt-Emits Q _ (
          bind-Emits Q _ _ (request-Emits Q _ _ _ (λ _. tt)) λ locations.
            bind-Emits Q _ _ list_published-Emits
              λ published. set_fleet_metrics-Emits locations published))
        λ _. pure-Emits Q tt

  report_entry-Emits :
      (location published : String) (entry : ManagedFieldsEntry)
      → Emits Q (report_entry V r location published entry)
  unfolding report_entry runs
  report_entry-Emits location published entry = record { all = λ s. ground arith }

  report_entries-Emits :
      (location published : String) (entries : List ManagedFieldsEntry)
      → Emits Q (report_entries V r location published entries)
  unfolding report_entries
  report_entries-Emits location published [] = pure-Emits Q tt
  report_entries-Emits location published (entry ∷ entries) =
      bind-Emits Q _ _ (report_entry-Emits location published entry)
        λ _. report_entries-Emits location published entries

  pub report_foreign_managers-Emits :
      (l : Location) (p : Option ServingLocation) → Emits Q (report_foreign_managers V r l p)
  unfolding report_foreign_managers
  report_foreign_managers-Emits l none = pure-Emits Q tt
  report_foreign_managers-Emits l (some p) = report_entries-Emits _ _ p.meta.managed_fields

  pub refuse-Emits : (l : Location) → Emits Q (refuse_without_city V r l)
  unfolding refuse_without_city runs
  refuse-Emits l = record { all = λ s. ground arith }

  pub refuse_unlabelled-Emits : (l : Location) → Emits Q (refuse_unlabelled V r l)
  unfolding refuse_unlabelled runs
  refuse_unlabelled-Emits l = record { all = λ s. ground arith }

  pub forget-Emits : (name : String) → Emits Q (forget_metrics V name >> pure no_requeue)
  unfolding forget_metrics runs
  forget-Emits name = record { all = λ s. ground arith }

  pub foreign-Emits :
      (name : String)
      → Emits Q (metric_call V (count_conflict name "UnlabelledHubObject") >> pure no_requeue)
  unfolding runs
  foreign-Emits name = record { all = λ s. ground arith }

  pub evaluate_removal_guard-Emits : (name : String) → Emits Q (evaluate_removal_guard V name)
  unfolding evaluate_removal_guard
  evaluate_removal_guard-Emits name =
      bind-Emits Q _ _ (request-Emits Q _ _ _ (λ _. tt)) λ items. pure-Emits Q _

  require_synced-Emits : (e : Error V.Failure) (b : Bool) → Emits Q (require_synced V e b)
  require_synced-Emits e true = pure-Emits Q tt
  require_synced-Emits e false = raise-Emits Q e

  require_empty_hub-Emits : (ps : List ServingLocation) → Emits Q (require_empty_hub V ps)
  require_empty_hub-Emits [] = pure-Emits Q tt
  require_empty_hub-Emits (p ∷ ps) = bind-Emits Q _ _ (note-Emits Q _ tt) λ _. raise-Emits Q _

  pub prune_allowed-Emits : Emits Q (prune_allowed V)
  unfolding prune_allowed
  prune_allowed-Emits = bind-Emits Q _ _ (query-Emits Q _ _ (λ _. tt)) λ source_ready.
      bind-Emits Q _ _ (require_synced-Emits _ source_ready) λ _.
        bind-Emits Q _ _ (query-Emits Q _ _ (λ _. tt)) λ hub_ready.
          bind-Emits Q _ _ (require_synced-Emits _ hub_ready) λ _.
            bind-Emits Q _ _ (request-Emits Q _ _ _ (λ _. tt)) λ locations.
              if-Emits Q (is_empty locations) _ _
                (λ _. bind-Emits Q _ _ list_published-Emits require_empty_hub-Emits)
                (λ _. pure-Emits Q tt)

  delete_propagation_policy-Emits : (name : String) → Emits Q (delete_propagation_policy V name)
  unfolding delete_propagation_policy runs
  delete_propagation_policy-Emits name = record { all = λ s. ground arith }

  delete_serving_answer-Emits :
      (name : String) (answer : Except V.Failure (Unit {0}))
      → Emits Q (delete_serving_answer V name answer)
  unfolding runs
  delete_serving_answer-Emits name (ok _) = pure-Emits Q tt
  delete_serving_answer-Emits name (err e) =
      if-Emits Q (V.is_not_found e) _ _ (λ _. pure-Emits Q tt) (λ _. raise-Emits Q _)

  pub delete_copy-Emits : (name : String) (p : ServingLocation) → Emits Q (delete_copy V name p)
  unfolding delete_copy
  delete_copy-Emits name p =
      bind-Emits Q _ _
        (bind-Emits Q _ _ (query-Emits Q _ _ (λ _. tt)) λ a. delete_serving_answer-Emits name a)
        λ _. bind-Emits Q _ _ (delete_propagation_policy-Emits name) λ _. forget-Emits name
