-- ===== src/Publisher/World/Still.antt =====
-- The parts of a run that leave the control planes as they are.
use locations.Prelude.{String, true, Option, none, some, List, [], ◌∷◌, ◌≡◌, ◌≢◌, refl}
use locations.Prelude.Effect.{Except, ok, err, pure, note, ◌>>=◌, ◌>>◌}
use locations.Prelude.Steps.{
  Takes, IfOk, bind-Takes, still-bind-Takes, pure-Takes, note-Takes, request-Takes, done-Takes,
  if-Takes, attempt-Takes,
}
use locations.Api.{Location, ServingLocation, ManagedFieldsEntry}
use locations.Publisher.Client.{Env, Call, Error, M, Reconciler, Cluster, send_event}
use locations.Publisher.Ownership.{
  is_foreign, report_entry, report_entries, report_foreign_managers,
}
use locations.Publisher.Hub.{list_published}
use locations.Publisher.Guard.{set_matched, refresh_matched_clusters}
use locations.Publisher.Publish.{no_requeue, refuse_without_city, refuse_unlabelled}
use locations.Publisher.Removal.{forget_metrics}
use locations.Publisher.Reconcile.{set_fleet_metrics, refresh_fleet_metrics}
use locations.Publisher.World.{Copy, View, World}

-- A run does not end in an error.
abbrev pub Never : View → Type 0
Never w = ⊥

module _ (V : Env) (W : World V) (r : Reconciler) where
  -- A run from this view that ends without an error and leaves the view.
  abbrev pub Still : {A : Type 0} → View → M V A → Type 0
  Still v m = Takes W.view (λ a w. (w ≡ v) × Unit {0}) (λ _. ⊥) v m

  -- One action after another.
  then-Still :
      {A B : Type 0} {v : View} {m : M V A} {f : A → M V B}
      → Still v m
      → ((a : A) → Still v (f a))
      → Still v (m >>= f)
  then-Still h k = still-bind-Takes W.view Never (λ _. Unit {0}) h λ a _. k a

  pure-Still : {A : Type 0} {v : View} (a : A) → Still v (pure a)
  pure-Still a = pure-Takes W.view Never a (refl, tt)

  note-Still : {v : View} (c : Call V.Failure) → Still v (note c)
  note-Still c = note-Takes W.view Never c (refl, tt)

  pub send_event-Still : (v : View) (n t c m : String) → Still v (send_event V r n t c m)
  unfolding send_event
  send_event-Still v n t c m =
      if-Takes W.view Never r.recorder _ _ (λ _. note-Still _) (λ _. pure-Still tt)

  pub refuse_without_city-Still : (v : View) (l : Location) → Still v (refuse_without_city V r l)
  unfolding refuse_without_city
  refuse_without_city-Still v l =
      then-Still (then-Still (note-Still _) λ _. send_event-Still v _ _ _ _) λ _. pure-Still _

  pub refuse_unlabelled-Still : (v : View) (l : Location) → Still v (refuse_unlabelled V r l)
  unfolding refuse_unlabelled
  refuse_unlabelled-Still v l =
      then-Still (then-Still (note-Still _) λ _. send_event-Still v _ _ _ _) λ _. pure-Still _

  report_entry-Still :
      (v : View) (l n : String) (entry : ManagedFieldsEntry) → Still v (report_entry V r l n entry)
  unfolding report_entry
  report_entry-Still v l n entry =
      if-Takes W.view Never (is_foreign V entry) _ _
        (λ _. then-Still (note-Still _) λ _. send_event-Still v _ _ _ _) (λ _. pure-Still tt)

  report_entries-Still :
      (v : View) (l n : String) (entries : List ManagedFieldsEntry)
      → Still v (report_entries V r l n entries)
  unfolding report_entries
  report_entries-Still v l n [] = pure-Still tt
  report_entries-Still v l n (entry ∷ entries) =
      then-Still (report_entry-Still v l n entry) λ _. report_entries-Still v l n entries

  pub report_foreign_managers-Still :
      (v : View) (l : Location) (held : Option ServingLocation)
      → Still v (report_foreign_managers V r l held)
  unfolding report_foreign_managers
  report_foreign_managers-Still v l none = pure-Still tt
  report_foreign_managers-Still v l (some p) = report_entries-Still v _ _ p.meta.managed_fields

  set_matched-Still :
      (v : View) (n : String) (answer : Except (Error V.Failure) (List Cluster))
      → Still v (set_matched V n answer)
  set_matched-Still v n (ok items) = note-Still _
  set_matched-Still v n (err e) = pure-Still tt

  pub refresh_matched_clusters-Still :
      (v : View) (n : String) → Still v (refresh_matched_clusters V n)
  unfolding refresh_matched_clusters
  refresh_matched_clusters-Still v n =
      bind-Takes W.view Never _
        (attempt-Takes W.view Never Never (
          done-Takes W.view Never {Good = λ a w. w ≡ v} v v.clusters _ _ _ (W.list_clusters v)
            refl))
        λ answer w known. kept answer w known
    where
      kept :
          (answer : Except (Error V.Failure) (List Cluster)) (w : View)
          → IfOk {F = Error V.Failure} (λ a u. u ≡ v) Never answer w
          → Takes W.view (λ a u. (u ≡ v) × Unit {0}) Never w (set_matched V n answer)
      kept (ok items) w e = rw e (set_matched-Still v n (ok items))
      kept (err x) w e = absurd e

  pub forget-Still : (v : View) (n : String) → Still v (forget_metrics V n >> pure no_requeue)
  unfolding forget_metrics
  forget-Still v n =
      then-Still
        (then-Still (then-Still (then-Still (note-Still _) λ _. note-Still _) λ _. note-Still _)
          λ _. note-Still _)
        λ _. pure-Still _

  set_fleet_metrics-Still :
      (v : View) (ls : List Location) (ps : List ServingLocation)
      → Still v (set_fleet_metrics V ls ps)
  unfolding set_fleet_metrics
  set_fleet_metrics-Still v ls ps =
      then-Still (then-Still (note-Still _) λ _. note-Still _) λ _. note-Still _

  -- `listPublished` succeeds, and returns something where some copy is owned.
  pub list_published-Takes :
      (Bad : View → Type 0) (v : View)
      → Takes W.view
          (λ ps w.
            (w ≡ v) × ((n : String) (c : Copy) → v.copies n ≡ some c → c.owned ≡ true → ps ≢ []))
          Bad
          v
          (list_published V)
  unfolding list_published
  list_published-Takes Bad v =
      request-Takes W.view Bad _ _ _
        λ s e. let (same, (ps, good, full)) = W.list_copies v s e in rw (same, good) (refl, full)

  pub refresh_fleet_metrics-Still : (v : View) → Still v (refresh_fleet_metrics V)
  unfolding refresh_fleet_metrics
  refresh_fleet_metrics-Still v =
      bind-Takes W.view Never _
        (attempt-Takes W.view Never Never (
          still-bind-Takes W.view Never (λ _. Unit {0})
            (done-Takes W.view Never v v.listing _ _ _ (W.list_sources v) (refl, tt))
            λ ls _.
              still-bind-Takes W.view Never _ (list_published-Takes Never v)
                λ ps _. set_fleet_metrics-Still v ls ps))
        λ answer w known. kept answer w known
    where
      kept :
          (answer : Except (Error V.Failure) (Unit {0})) (w : View)
          → IfOk {F = Error V.Failure} (λ a u. (u ≡ v) × Unit {0}) Never answer w
          → Takes W.view
              (λ a u. (u ≡ v) × Unit {0})
              Never
              w
              (pure {E = Error V.Failure} {C = Call V.Failure} (tt {0}))
      kept (ok _) w e = rw e.0 (pure-Still tt)
      kept (err x) w e = absurd e
