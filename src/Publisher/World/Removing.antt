-- ===== src/Publisher/World/Removing.antt =====
-- Removing the copy of a name, on views.
use locations.Prelude.{String, true, false, Option, none, some, List, [], ◌∷◌, arith}
use locations.Prelude.{◌≡◌, ◌≢◌, refl, sym, ap, ◌∙◌, ◌==◌, ◌||◌, is_empty, if◌then◌else◌}
use locations.Prelude.Effect.{Except, ok, err}
use locations.Prelude.GoMap.{index}
use locations.Prelude.Steps.{
  Takes, IfOk, bind-Takes, query-bind-Takes, read-bind-Takes, still-bind-Takes, pure-Takes,
  raise-Takes, note-Takes, done-Takes, if-Takes, attempt-Takes, weaken-Takes,
}
use locations.Api.{ServingLocation}
use locations.Publisher.Client.{Env, Error, Reconciler}
use locations.Publisher.Ownership.{owns_object, location_removal_blocked_annotation}
use locations.Publisher.Policy.{delete_answer, delete_propagation_policy}
use locations.Publisher.Hub.{list_published, record_blocked, blocked_text, RemovalDecision}
use locations.Publisher.Guard.{evaluate_removal_guard, removal_decision}
use locations.Publisher.Removal.{
  has_override, prune_allowed, require_empty_hub, delete_serving_answer, delete_copy, retain_copy,
  remove_guarded, remove_pruned, remove_published, remove,
}
use locations.Publisher.World.{Copy, View, World, content, with_copy, remaining, IsDone}
use locations.Publisher.World.Spec.{removing, after_remove}
use locations.Publisher.World.Still.{Still, Never, list_published-Takes, forget-Still}
use locations.Publisher.World.Publishing.{
  IsReading, read_published-Takes, insert-content, Still-Takes,
}

module _ (V : Env) (W : World V) (r : Reconciler) (name : String) where
  -- The source lists nothing.
  abbrev NoSource : View → View → Type 0
  NoSource v w = (w ≡ v) × (is_empty v.listing ≡ true)

  abbrev HasSource : {A : Type 0} → View → A → View → Type 0
  HasSource v a w = (w ≡ v) × (is_empty v.listing ≡ false)

  check_hub-Takes :
      (v : View) (ps : List ServingLocation)
      → ps ≢ []
      → is_empty v.listing ≡ true
      → Takes W.view (HasSource v) (NoSource v) v (require_empty_hub V ps)
  check_hub-Takes v [] full bare = absurd (full refl)
  check_hub-Takes v (p ∷ ps) full bare =
      bind-Takes W.view _ (λ _ w. w ≡ v) (note-Takes W.view _ _ refl)
        λ _ w e. raise-Takes W.view _ _ (e, bare)

  prune_allowed-Takes :
      (v : View) (n : String) (c : Copy)
      → v.copies n ≡ some c
      → c.owned ≡ true
      → Takes W.view (HasSource v) (NoSource v) v (prune_allowed V)
  unfolding prune_allowed list_published
  prune_allowed-Takes v n c there owned =
      read-bind-Takes W.view _ (λ b. b ≡ true) _ _ _ (W.sync_source v)
        λ b e. rw e (
          bind-Takes W.view _ (λ _ w. w ≡ v) (pure-Takes W.view _ tt refl)
            λ _ w q. rw q (
              read-bind-Takes W.view _ (λ h. h ≡ true) _ _ _ (W.sync_hub v)
                λ h k. rw k (
                  bind-Takes W.view _ (λ _ u. u ≡ v) (pure-Takes W.view _ tt refl)
                    λ _ u z. rw z (
                      bind-Takes W.view _ (λ ls x. (x ≡ v) × (ls ≡ v.listing))
                        (done-Takes W.view _ v v.listing _ _ _ (W.list_sources v) (refl, refl))
                        λ ls x known.
                          rw (known.0, known.1)
                            (if-Takes W.view _ (is_empty v.listing) _ _
                              (λ bare.
                                still-bind-Takes W.view _ _
                                  (list_published-Takes V W r (NoSource v) v)
                                  λ ps nonempty.
                                    check_hub-Takes v ps (nonempty n c there owned) bare)
                              (λ full. pure-Takes W.view _ tt (refl, full)))))))

  -- What the run does to the view.
  abbrev IsRemoved : View → {A : Type 0} → A → View → Type 0
  IsRemoved v a w = w ≡ removing name (v.copies name) v

  module _ (p : ServingLocation) where
    delete_serving_answer-Still :
        (answer : Except V.Failure (Unit {0})) (v : View)
        → IsDone V answer
        → Takes W.view (λ _ w. w ≡ v) Never v (delete_serving_answer V name answer)
    delete_serving_answer-Still (ok _) v done = pure-Takes W.view Never tt refl
    delete_serving_answer-Still (err e) v done =
        if-Takes W.view Never (V.is_not_found e) _ _ (λ _. pure-Takes W.view Never tt refl)
          (λ failed. absurd (ground (arith, done, failed)))

    delete_answer-Still :
        (f : V.Failure → Error V.Failure) (answer : Except V.Failure (Unit {0})) (v : View)
        → IsDone V answer
        → Takes W.view (λ _ w. w ≡ v) Never v (delete_answer V f answer)
    delete_answer-Still f (ok _) v done = pure-Takes W.view Never tt refl
    delete_answer-Still f (err e) v done =
        if-Takes W.view Never (V.is_not_found e) _ _ (λ _. pure-Takes W.view Never tt refl)
          (λ failed. absurd (ground (arith, done, failed)))

    delete_copy-Takes :
        (v : View) (c : Copy)
        → v.copies name ≡ some c
        → p.meta.name ≡ name
        → Takes W.view (λ _ w. w ≡ after_remove name v) Never v (delete_copy V name p)
    unfolding delete_copy delete_propagation_policy
    delete_copy-Takes v c there named =
        bind-Takes W.view Never (λ _ w. w ≡ with_copy name (remaining (some c)) v)
          (query-bind-Takes W.view Never
            (λ a w. (w ≡ with_copy p.meta.name (remaining (some c)) v) × IsDone V a) _ _ _
            (W.delete p v c (rw named there))
            λ a w known. rw (known.0, named) (delete_serving_answer-Still a _ known.1))
          λ _ w e. rw e (
            bind-Takes W.view Never (λ _ u. u ≡ after_remove name v)
              (query-bind-Takes W.view Never (λ a u. (u ≡ after_remove name v) × IsDone V a) _ _ _
                (λ s q.
                  let (left, done) =
                    W.delete_policy _ (with_copy name (remaining (some c)) v) s q in
                  (left ∙ rw there refl, done))
                λ a u known. rw known.0 (delete_answer-Still _ a _ known.1))
              λ _ u q. rw q (Still-Takes V W r (forget-Still V W r (after_remove name v) name)))

    record_blocked-Still :
        (v : View) (c : Copy) (d : RemovalDecision)
        → v.copies name ≡ some c
        → p.meta.name ≡ name
        → Still V W r v (record_blocked V p d)
    unfolding record_blocked
    record_blocked-Still v c d there named =
        if-Takes W.view Never
          (index location_removal_blocked_annotation p.meta.annotations == blocked_text d) _ _
          (λ _. pure-Takes W.view Never tt (refl, tt))
          (λ _.
            done-Takes W.view Never v tt _ _ _
              (W.patch p _ v c (rw named there) (insert-content (blocked_text d) p)) (refl, tt))

    retain_copy-Takes :
        (v : View) (c : Copy) (d : RemovalDecision)
        → v.copies name ≡ some c
        → p.meta.name ≡ name
        → Takes W.view (λ _ w. w ≡ v) Never v (retain_copy V r name p d)
    unfolding retain_copy
    retain_copy-Takes v c d there named =
        bind-Takes W.view Never (λ _ w. w ≡ v) (note-Takes W.view Never _ refl)
          λ _ w e. rw e (
            still-bind-Takes W.view Never (λ _. Unit {0}) (record_blocked-Still v c d there named)
              λ _ _. pure-Takes W.view Never _ refl)

    remove_guarded-Takes :
        (v : View) (c : Copy)
        → v.copies name ≡ some c
        → p.meta.name ≡ name
        → Takes W.view
            (λ _ w.
              w ≡ (if (removal_decision name v.clusters).allowed then after_remove name v else v))
            Never
            v
            (remove_guarded V r name p)
    unfolding remove_guarded evaluate_removal_guard
    remove_guarded-Takes v c there named =
        still-bind-Takes W.view Never (λ d. d ≡ removal_decision name v.clusters)
          (still-bind-Takes W.view Never (λ items. items ≡ v.clusters)
            (done-Takes W.view Never v v.clusters _ _ _ (W.list_clusters v) (refl, refl))
            λ items e. rw e (pure-Takes W.view Never _ (refl, refl)))
          λ d e. rw e (
            if-Takes W.view Never (removal_decision name v.clusters).allowed _ _
              (λ yes_.
                weaken-Takes W.view Never (λ a w q. rw yes_ q) (delete_copy-Takes v c there named))
              (λ no_.
                weaken-Takes W.view Never (λ a w q. rw no_ q)
                  (retain_copy-Takes v c _ there named)))

    -- An owned copy, as it was read.
    abbrev IsOurs : View → Type 0
    IsOurs v =
        (v.copies name ≡ some (content p)) × (p.meta.name ≡ name) × (owns_object p.meta ≡ true)

    removing-barred :
        (v : View) → IsOurs v → is_empty v.listing ≡ true → removing name (v.copies name) v ≡ v
    removing-barred v ours bare = rw (ours.0, ours.2, bare) refl

    removing-free :
        (v : View)
        → IsOurs v
        → is_empty v.listing ≡ false
        → removing name (v.copies name) v ≡ (
            if has_override p || (removal_decision name v.clusters).allowed
            then after_remove name v
            else v)
    removing-free v ours full = ap (λ o. removing name o v) ours.0 ∙ rw (ours.2, full) refl

    remove_pruned-Takes :
        (v : View) (answer : Except (Error V.Failure) (Unit {0}))
        → IsOurs v
        → IfOk {F = Error V.Failure} (HasSource v) (NoSource v) answer v
        → Takes W.view (IsRemoved v) Never v (remove_pruned V r name p answer)
    unfolding remove_pruned
    remove_pruned-Takes v (err e) ours known =
        pure-Takes W.view Never _ (sym (removing-barred v ours known.1))
    remove_pruned-Takes v (ok _) ours known =
        if-Takes W.view Never (has_override p) _ _
          (λ over.
            weaken-Takes W.view Never
              (λ a w e. e ∙ sym (removing-free v ours known.1 ∙ rw over refl))
              (delete_copy-Takes v (content p) ours.0 ours.1))
          (λ plain.
            weaken-Takes W.view Never
              (λ a w e. e ∙ sym (removing-free v ours known.1 ∙ rw plain refl))
              (remove_guarded-Takes v (content p) ours.0 ours.1))

  remove_published-Takes :
      (v : View) (o : Option ServingLocation)
      → IsReading name o (v.copies name)
      → Takes W.view (IsRemoved v) Never v (remove_published V r name o)
  unfolding remove_published
  remove_published-Takes v none known =
      weaken-Takes W.view Never (λ a w e. rw (known, e.0) refl) (forget-Still V W r v name)
  remove_published-Takes v (some p) known =
      if-Takes W.view Never (owns_object p.meta) _ _
        (λ owned.
          bind-Takes W.view Never
            (λ answer w. (w ≡ v) × IfOk {F = Error V.Failure} (HasSource v) (NoSource v) answer v)
            (weaken-Takes W.view Never (λ answer w e. settled v answer w e)
              (attempt-Takes W.view Never (NoSource v)
                (prune_allowed-Takes v name (content p) known.0 owned)))
            λ answer w e. rw e.0 (remove_pruned-Takes p v answer (known.0, known.1, owned) e.1))
        (λ foreign.
          bind-Takes W.view Never (λ _ w. w ≡ v) (note-Takes W.view Never _ refl)
            λ _ w e. rw e (pure-Takes W.view Never _ (rw (known.0, foreign) refl)))
    where
      settled :
          (u : View) (answer : Except (Error V.Failure) (Unit {0})) (w : View)
          → IfOk {F = Error V.Failure} (HasSource u) (NoSource u) answer w
          → (w ≡ u) × IfOk {F = Error V.Failure} (HasSource u) (NoSource u) answer u
      settled u (ok a) w e = (e.0, (refl, e.1))
      settled u (err a) w e = (e.0, (refl, e.1))

  pub remove-Takes : (v : View) → Takes W.view (IsRemoved v) Never v (remove V r name)
  unfolding remove
  remove-Takes v =
      still-bind-Takes W.view Never (λ o. IsReading name o (v.copies name))
        (read_published-Takes V W r name v) λ o known. remove_published-Takes v o known
