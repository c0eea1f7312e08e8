-- ===== src/Publisher/Outcome/Removed.antt =====
-- How removing a copy ends.
use locations.Prelude.{String, Bool, true, false, List, [], ◌∷◌, ◌≡◌, refl, inl, inr, All}
use locations.Prelude.{◌==◌, if◌then◌else◌, is_empty}
use locations.Prelude.Effect.{Except, ok, err, pure, ◌>>=◌, ◌>>◌}
use locations.Prelude.GoMap.{index}
use locations.Prelude.Trace.{
  Some, Some-map, Ends, bind-Ends, pure-Ends, raise-Ends, note-Ends, query-bind-Ends, request-Ends,
  if-Ends,
}
use locations.Api.{Location, ServingLocation}
use locations.Publisher.Client.{Env, Call, Error, Reconciler, Result}
use locations.Publisher.Ownership.{owns_object, location_removal_blocked_annotation}
use locations.Publisher.Policy.{
  location_propagation_policy_name, delete_answer, delete_propagation_policy,
}
use locations.Publisher.Hub.{record_blocked, list_published, RemovalDecision, blocked_text}
use locations.Publisher.Guard.{evaluate_removal_guard}
use locations.Publisher.Publish.{no_requeue}
use locations.Publisher.Removal.{
  has_override, prune_allowed, require_synced, require_empty_hub, forget_metrics,
  delete_serving_answer, delete_copy, retain_copy, remove_guarded,
}
use locations.Publisher.Deletion.{IsNotDelete}
use locations.Publisher.Writing.{IsHeld}
use locations.Publisher.Outcome.{
  Calls, IsBar, IsRefusal, IsDeleted, IsUnplaced, Outcome, retained, removed,
}
use locations.Publisher.Outcome.Published.{Bad, Keep}

module _ (V : Env) (r : Reconciler) where
  -- An error of `pruneAllowed` comes of an answer that bars removals.
  abbrev pub Barred : Calls V r → Type 0
  Barred now = Some (IsBar V r) now

  abbrev Any : {A : Type 0} → A → Calls V r → Type 0
  Any a now = Unit {0}

  require_synced-Ends :
      (e : Error V.Failure) (b : Bool) (now : Calls V r)
      → (b ≡ false → Barred now)
      → Ends Any Barred now (require_synced V e b)
  require_synced-Ends e true now h = pure-Ends Barred tt tt
  require_synced-Ends e false now h = raise-Ends Barred e (h refl)

  require_empty_hub-Ends :
      (ps : List ServingLocation) (now : Calls V r)
      → Barred now
      → Ends Any Barred now (require_empty_hub V ps)
  require_empty_hub-Ends [] now h = pure-Ends Barred tt tt
  require_empty_hub-Ends (p ∷ ps) now h =
      bind-Ends Barred (λ _. Barred) (note-Ends Barred _ (inr h)) λ _ after k. raise-Ends Barred _ k

  check_hub-Ends :
      (ls : List Location) (now : Calls V r)
      → Ends Any Barred
          (Call.listed_locations (ok ls) ∷ now)
          (if is_empty ls then list_published V >>= require_empty_hub V else pure tt)
  unfolding list_published
  check_hub-Ends [] now =
      bind-Ends Barred (λ _. Barred)
        (request-Ends Barred _ _ _ (λ _. inr (inl tt)) (λ _. inr (inl tt)))
        λ ps after k. require_empty_hub-Ends ps after k
  check_hub-Ends (l ∷ ls) now = pure-Ends Barred tt tt

  pub prune_allowed-Ends : (now : Calls V r) → Ends Any Barred now (prune_allowed V)
  unfolding prune_allowed list_published
  prune_allowed-Ends now = query-bind-Ends Barred _ _ _ λ source_ready.
      bind-Ends Barred Any (require_synced-Ends _ source_ready _ (λ e. inl e)) λ _ after _.
        query-bind-Ends Barred _ _ _ λ hub_ready.
          bind-Ends Barred Any (require_synced-Ends _ hub_ready _ (λ e. inl e)) λ _ later _.
            bind-Ends Barred
              (λ ls at. (before : Calls V r) × (at ≡ Call.listed_locations (ok ls) ∷ before))
              (request-Ends Barred _ _ _ (λ ls. (later, refl)) (λ _. inl tt))
              λ ls at (before, e). rw e (check_hub-Ends ls before)

  module _ (name : String) where
    abbrev Good : Result → Calls V r → Type 0
    Good result now = Outcome V r name result now

    pub forget-Ends :
        (P : Calls V r → Type 0) (now : Calls V r)
        → Keep V r P
        → P now
        → ((later : Calls V r) → P later → Good no_requeue later)
        → Ends Good (Bad V r) now (forget_metrics V name >> pure no_requeue)
    unfolding forget_metrics
    forget-Ends P now keep p good =
        bind-Ends _ (λ _. P)
          (bind-Ends _ (λ _. P)
            (bind-Ends _ (λ _. P)
              (bind-Ends _ (λ _. P) (note-Ends _ _ (keep _ now p))
                λ _ a q. note-Ends _ _ (keep _ a q))
              λ _ a q. note-Ends _ _ (keep _ a q))
            λ _ a q. note-Ends _ _ (keep _ a q))
          λ _ after q. pure-Ends _ _ (good after q)

    module _ (p : ServingLocation) where
      abbrev IsHere : Calls V r → Type 0
      IsHere now = Some (IsHeld V r name p) now

      delete_serving_answer-Ends :
          (answer : Except V.Failure (Unit {0})) (now : Calls V r)
          → IsHere now
          → Ends
              (λ _ after. IsHere after × Some (IsDeleted V r p) after)
              (Bad V r)
              (Call.deleted_serving p answer ∷ now)
              (delete_serving_answer V name answer)
      delete_serving_answer-Ends (ok _) now h = pure-Ends _ tt (inr h, inl (ok tt, refl, tt))
      delete_serving_answer-Ends (err e) now h =
          if-Ends _ (V.is_not_found e) _ _ (λ gone. pure-Ends _ tt (inr h, inl (err e, refl, gone)))
            (λ failed. raise-Ends _ _ (inl failed))

      abbrev IsGone : Calls V r → Type 0
      IsGone now = IsHere now × Some (IsDeleted V r p) now × Some (IsUnplaced V r name) now

      delete_policy-Ends :
          (w : V.Failure → Error V.Failure) (answer : Except V.Failure (Unit {0})) (now : Calls V r)
          → IsHere now × Some (IsDeleted V r p) now
          → Ends
              (λ _. IsGone)
              (Bad V r)
              (Call.deleted_policy (location_propagation_policy_name name) answer ∷ now)
              (delete_answer V w answer)
      delete_policy-Ends w (ok _) now h = pure-Ends _ tt (inr h.0, inr h.1, inl (ok tt, refl, tt))
      delete_policy-Ends w (err e) now h =
          if-Ends _ (V.is_not_found e) _ _
            (λ gone. pure-Ends _ tt (inr h.0, inr h.1, inl (err e, refl, gone)))
            (λ failed. raise-Ends _ _ (inl failed))

      pub delete_copy-Ends :
          (now : Calls V r) → IsHere now → Ends Good (Bad V r) now (delete_copy V name p)
      unfolding delete_copy delete_propagation_policy
      delete_copy-Ends now h =
          bind-Ends _ (λ _ after. IsHere after × Some (IsDeleted V r p) after)
            (query-bind-Ends _ _ _ _ λ a. delete_serving_answer-Ends a now h)
            λ _ after f.
              bind-Ends _ (λ _. IsGone)
                (query-bind-Ends _ _ _ _ λ a. delete_policy-Ends _ a after f)
                λ _ later g.
                  forget-Ends IsGone later (λ _ _ k. (inr k.0, inr k.1, inr k.2)) g
                    (λ _ k. removed p k.0 k.1 k.2)

      -- The copy is read, and nothing is deleted yet.
      abbrev Quiet : Calls V r → Type 0
      Quiet now = All (IsNotDelete V) now × IsHere now

      abbrev Refused : Calls V r → Type 0
      Refused now = Quiet now × Some (IsRefusal V r name) now

      retain_copy-Ends :
          (d : RemovalDecision) (now : Calls V r)
          → owns_object p.meta ≡ true
          → has_override p ≡ false
          → Refused now
          → Ends Good (Bad V r) now (retain_copy V r name p d)
      unfolding retain_copy record_blocked
      retain_copy-Ends d now owned plain ((all, here), refused) =
          bind-Ends _ (λ _ after. Refused after)
            (note-Ends _ _ (((tt, all), inr here), inr refused))
            λ _ after k.
              bind-Ends _ (λ _ later. Refused later)
                (if-Ends _
                  (index location_removal_blocked_annotation p.meta.annotations == blocked_text d) _
                  _ (λ _. pure-Ends _ tt k)
                  (λ _.
                    request-Ends _ _ _ _ (λ _. (((tt, k.0.0), inr k.0.1), inr k.1)) (λ _. inl tt)))
                λ _ later q. pure-Ends _ _ (retained p q.0.1 owned q.0.0 (inr (plain, q.1)) refl)

      pub remove_guarded-Ends :
          (now : Calls V r)
          → owns_object p.meta ≡ true
          → has_override p ≡ false
          → Quiet now
          → Ends Good (Bad V r) now (remove_guarded V r name p)
      unfolding remove_guarded evaluate_removal_guard
      remove_guarded-Ends now owned plain (all, h) =
          bind-Ends _
            (λ d after. Quiet after × (d.allowed ≡ false → Some (IsRefusal V r name) after))
            (bind-Ends _
              (λ items after. Quiet after × Some (λ c. c ≡ Call.listed_clusters (ok items)) after)
              (request-Ends _ _ _ _ (λ items. (((tt, all), inr h), inl refl)) (λ _. inl tt))
              λ items after f. pure-Ends _ _ (
                f.0,
                λ refused. Some-map _ (IsRefusal V r name) after (λ c e. (items, e, refused)) f.1,
              ))
            λ d after f.
              if-Ends _ d.allowed _ _ (λ _. delete_copy-Ends after f.0.1)
                (λ refused. retain_copy-Ends d after owned plain (f.0, f.1 refused))
