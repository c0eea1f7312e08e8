-- ===== src/Publisher/Deletion/Harmless.antt =====
-- The parts of the publisher that delete nothing.
use locations.Prelude.{
  String, Bool, true, false, is_empty, Option, none, some, List, [], ◌∷◌, arith,
}
use locations.Prelude.{◌==◌}
use locations.Prelude.Effect.{runs, pure, ◌>>◌}
use locations.Prelude.Trace.{
  Emits, bind-Emits, request-Emits, query-Emits, note-Emits, pure-Emits, raise-Emits, if-Emits,
  attempt-Emits,
}
use locations.Api.{Location, ServingLocation, ManagedFieldsEntry, Time}
use locations.Publisher.Client.{Env, Call, Reconciler, Error, send_event, metric_call}
use locations.Metrics.{count_conflict}
use locations.Publisher.Ownership.{report_foreign_managers, report_entries, report_entry}
use locations.Publisher.Policy.{apply_propagation_policy}
use locations.Publisher.Hub.{
  read_published, list_published, record_blocked, clear_blocked, RemovalDecision,
}
use locations.Publisher.Guard.{refresh_matched_clusters, evaluate_removal_guard}
use locations.Publisher.Publish.{
  is_unowned, trimmed_city_code, refuse_without_city, refuse_unlabelled, write_copy, publish_owned,
  publish_with_city, publish, no_requeue,
}
use locations.Publisher.Removal.{
  forget_metrics, retain_copy, require_synced, require_empty_hub, prune_allowed,
}
use locations.Publisher.Reconcile.{refresh_fleet_metrics, set_fleet_metrics, count_fleet}
use locations.Publisher.Deletion.{IsNotDelete}

module _ (V : Env) (r : Reconciler) where
  abbrev Q : Call V.Failure → Type 0
  Q = IsNotDelete V

  pub read_published-Emits : (name : String) → Emits Q (read_published V name)
  unfolding read_published runs
  read_published-Emits name = record { all = λ s. ground arith }

  send_event-Emits : (n t c m : String) → Emits Q (send_event V r n t c m)
  unfolding send_event runs
  send_event-Emits n t c m = record { all = λ s. ground arith }

  set_fleet_metrics-Emits :
      (ls : List Location) (ps : List ServingLocation) → Emits Q (set_fleet_metrics V ls ps)
  unfolding set_fleet_metrics runs
  set_fleet_metrics-Emits ls ps = record { all = λ s. ground arith }

  clear_blocked-Emits : (p : Option ServingLocation) → Emits Q (clear_blocked V p)
  unfolding clear_blocked runs
  clear_blocked-Emits p = record { all = λ s. ground arith }

  refresh_matched_clusters-Emits : (name : String) → Emits Q (refresh_matched_clusters V name)
  unfolding refresh_matched_clusters runs
  refresh_matched_clusters-Emits name = record { all = λ s. ground arith }

  pub retain_copy-Emits :
      (name : String) (p : ServingLocation) (d : RemovalDecision)
      → Emits Q (retain_copy V r name p d)
  unfolding retain_copy record_blocked runs
  retain_copy-Emits name p d = record { all = λ s. ground arith }

  list_published-Emits : Emits Q (list_published V)
  unfolding list_published
  list_published-Emits = request-Emits Q _ _ _ (λ _. tt)

  pub count_fleet-Emits : Emits Q (count_fleet V)
  unfolding count_fleet
  count_fleet-Emits = bind-Emits Q _ _ (request-Emits Q _ _ _ (λ _. tt)) λ locations.
      bind-Emits Q _ _ list_published-Emits λ published. set_fleet_metrics-Emits locations published

  require_synced-Emits : (e : Error V.Failure) (b : Bool) → Emits Q (require_synced V e b)
  require_synced-Emits e true = pure-Emits Q tt
  require_synced-Emits e false = raise-Emits Q e

  require_empty_hub-Emits : (ps : List ServingLocation) → Emits Q (require_empty_hub V ps)
  require_empty_hub-Emits [] = pure-Emits Q tt
  require_empty_hub-Emits (p ∷ ps) = bind-Emits Q _ _ (note-Emits Q _ tt) λ _. raise-Emits Q _

  pub prune_allowed-Emits : Emits Q (prune_allowed V)
  unfolding prune_allowed
  prune_allowed-Emits = bind-Emits Q _ _ (query-Emits Q _ _ (λ _. tt)) λ source_ready.
      bind-Emits Q _ _ (require_synced-Emits _ source_ready) λ _.
        bind-Emits Q _ _ (query-Emits Q _ _ (λ _. tt)) λ hub_ready.
          bind-Emits Q _ _ (require_synced-Emits _ hub_ready) λ _.
            bind-Emits Q _ _ (request-Emits Q _ _ _ (λ _. tt)) λ locations.
              if-Emits Q (is_empty locations) _ _
                (λ _. bind-Emits Q _ _ list_published-Emits λ ps. require_empty_hub-Emits ps)
                (λ _. pure-Emits Q tt)

  pub evaluate_removal_guard-Emits : (name : String) → Emits Q (evaluate_removal_guard V name)
  unfolding evaluate_removal_guard
  evaluate_removal_guard-Emits name =
      bind-Emits Q _ _ (request-Emits Q _ _ _ (λ _. tt)) λ items. pure-Emits Q _

  pub refresh_fleet_metrics-Emits : Emits Q (refresh_fleet_metrics V)
  unfolding refresh_fleet_metrics
  refresh_fleet_metrics-Emits =
      bind-Emits Q _ _ (attempt-Emits Q _ count_fleet-Emits) λ _. pure-Emits Q tt

  report_entry-Emits :
      (location published : String) (entry : ManagedFieldsEntry)
      → Emits Q (report_entry V r location published entry)
  unfolding report_entry runs
  report_entry-Emits location published entry = record { all = λ s. ground arith }

  report_entries-Emits :
      (location published : String) (entries : List ManagedFieldsEntry)
      → Emits Q (report_entries V r location published entries)
  unfolding report_entries
  report_entries-Emits location published [] = pure-Emits Q tt
  report_entries-Emits location published (entry ∷ entries) =
      bind-Emits Q _ _ (report_entry-Emits location published entry)
        λ _. report_entries-Emits location published entries

  report_foreign_managers-Emits :
      (l : Location) (p : Option ServingLocation) → Emits Q (report_foreign_managers V r l p)
  unfolding report_foreign_managers
  report_foreign_managers-Emits l none = pure-Emits Q tt
  report_foreign_managers-Emits l (some p) = report_entries-Emits _ _ p.meta.managed_fields

  apply_propagation_policy-Emits : (name : String) → Emits Q (apply_propagation_policy V r name)
  unfolding apply_propagation_policy
  apply_propagation_policy-Emits name = request-Emits Q _ _ _ (λ _. tt)

  write_copy-Emits :
      (l : Location) (p : Option ServingLocation) (t : Time) → Emits Q (write_copy V r l p t)
  unfolding write_copy
  write_copy-Emits l p t =
      bind-Emits Q _ _
        (bind-Emits Q _ _
          (bind-Emits Q _ _
            (bind-Emits Q _ _
              (bind-Emits Q _ _
                (bind-Emits Q _ _ (request-Emits Q _ _ _ (λ _. tt))
                  (λ _. apply_propagation_policy-Emits l.meta.name))
                (λ _. clear_blocked-Emits p))
              (λ _. note-Emits Q _ tt))
            (λ _. note-Emits Q _ tt))
          (λ _. refresh_matched_clusters-Emits l.meta.name))
        (λ _. pure-Emits Q _)

  refuse-Emits : (l : Location) → Emits Q (refuse_without_city V r l)
  unfolding refuse_without_city runs
  refuse-Emits l = record { all = λ s. ground arith }

  refuse_unlabelled-Emits : (l : Location) → Emits Q (refuse_unlabelled V r l)
  unfolding refuse_unlabelled runs
  refuse_unlabelled-Emits l = record { all = λ s. ground arith }

  publish_owned-Emits :
      (l : Location) (p : Option ServingLocation) (city : String)
      → Emits Q (publish_owned V r l p city)
  unfolding publish_owned
  publish_owned-Emits l p city =
      bind-Emits Q _ _ (report_foreign_managers-Emits l p)
        λ _. bind-Emits Q _ _ (query-Emits Q _ _ (λ _. tt)) λ now. write_copy-Emits l p _

  -- Publishing deletes nothing, whatever the clients answer.
  pub publish-Emits : (l : Location) → Emits Q (publish V r l)
  unfolding publish publish_with_city
  publish-Emits l =
      if-Emits Q (trimmed_city_code l == "") _ _ (λ _. refuse-Emits l)
        λ _. bind-Emits Q _ _ (note-Emits Q _ tt) λ _.
          bind-Emits Q _ _ (read_published-Emits l.meta.name) λ p.
            if-Emits Q (is_unowned p) _ _ (λ _. refuse_unlabelled-Emits l)
              (λ _. publish_owned-Emits l p (trimmed_city_code l))

module _ (V : Env) (name : String) where
  -- The end of a removal: the gauges of the location go, and nothing is requeued.
  pub forget-Emits : Emits (IsNotDelete V) (forget_metrics V name >> pure no_requeue)
  unfolding forget_metrics runs
  forget-Emits = record { all = λ s. ground arith }

  pub foreign-Emits :
      Emits
        (IsNotDelete V)
        (metric_call V (count_conflict name "UnlabelledHubObject") >> pure no_requeue)
  unfolding runs
  foreign-Emits = record { all = λ s. ground arith }
