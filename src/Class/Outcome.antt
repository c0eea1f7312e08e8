-- ===== src/Class/Outcome.antt =====
-- What a run of the class controller has done when it ends.
use locations.Prelude.{String, true, false, List, [], ◌∷◌, ◌≡◌, refl, ◌⊎◌, inl, inr}
use locations.Prelude.{◌<>◌, ◌==◌, is_empty}
use locations.Prelude.Effect.{Except, ok, err}
use locations.Prelude.GoMap.{index}
use locations.Prelude.Trace.{
  Some, Ends, Ended, bind-Ends, pure-Ends, raise-Ends, note-Ends, query-bind-Ends, request-Ends,
  if-Ends, frame-Ends,
}
use locations.Api.{LocationClass, is_zero_time}
use locations.Publisher.Ownership.{location_removal_blocked_annotation, removal_blocked_requeue}
use locations.Class.Index.{location_class_finalizer}
use locations.Class.Client.{Env, Call, Reconciler, Result, send_event}
use locations.Class.Reconcile.{
  hold, referencing_locations, record_blocked_deletion, let_go, block, release, handle, reconcile,
  location_class_blocked_reason,
}
use locations.Class.Finalizer.{
  Calls, IsRead, IsUnreferenced, IsReferenced, Counted, sorted_names-Counted,
}

module _ (V : Env) where
  -- A client's call failed.
  abbrev pub HasFailed : Call V.Failure → Type 0
  HasFailed (Call.got_class name (err e)) = V.is_not_found e ≡ false
  HasFailed (Call.listed_locations name (err e)) = Unit
  HasFailed (Call.patched_class old new (err e)) = Unit
  HasFailed _ = ⊥

  -- The patch was accepted.
  abbrev pub IsPatched : LocationClass → LocationClass → Call V.Failure → Type 0
  IsPatched old new call = call ≡ Call.patched_class old new (ok tt)

  -- The ways in which a run for a name ends without an error, given its result and its calls.
  pub data Outcome (name : String) (result : Result) (now : Calls V) : Type 0 where
    missing :
        Some
          (λ c. (e : V.Failure) × (c ≡ Call.got_class name (err e)) × (V.is_not_found e ≡ true))
          now
        → Outcome name result now
    held :
        (c : LocationClass)
        → Some (IsRead V name c) now
        → is_zero_time c.meta.deletion_timestamp ≡ true
        → (V.contains_finalizer c location_class_finalizer ≡ true)
          ⊎ Some (IsPatched c (V.add_finalizer c location_class_finalizer)) now
        → Outcome name result now
    blocked :
        (c : LocationClass)
        → Some (IsRead V name c) now
        → is_zero_time c.meta.deletion_timestamp ≡ false
        → Some (IsReferenced V c.meta.name) now
        → result.requeue_after ≡ removal_blocked_requeue
        → Outcome name result now
    released :
        (c : LocationClass)
        → Some (IsRead V name c) now
        → is_zero_time c.meta.deletion_timestamp ≡ false
        → Some (IsUnreferenced V c.meta.name) now
        → (V.contains_finalizer c location_class_finalizer ≡ false)
          ⊎ Some (IsPatched c (V.remove_finalizer c location_class_finalizer)) now
        → Outcome name result now

  module _ (name : String) where
    abbrev Good : Result → Calls V → Type 0
    Good result now = Outcome name result now

    abbrev Bad : Calls V → Type 0
    Bad now = Some HasFailed now

    referencing_locations-Ends :
        (subject : String) (now : Calls V)
        → Ends (Counted V subject) Bad now (referencing_locations V subject)
    unfolding referencing_locations
    referencing_locations-Ends subject now =
        bind-Ends Bad
          (λ ls after.
            (before : Calls V) × (after ≡ Call.listed_locations subject (ok ls) ∷ before))
          (request-Ends Bad _ _ _ (λ ls. (now, refl)) (λ _. inl tt))
          λ ls after (before, e). pure-Ends Bad _ (rw e (sorted_names-Counted V subject ls before))

    module _ (c : LocationClass) where
      abbrev Here : Calls V → Type 0
      Here now = Some (IsRead V name c) now

      hold-Ends :
          (now : Calls V)
          → is_zero_time c.meta.deletion_timestamp ≡ true
          → Here now
          → Ends (λ _ after. (result : Result) → Good result after) Bad now (hold V c)
      unfolding hold
      hold-Ends now live h =
          bind-Ends Bad (λ _. Here) (note-Ends Bad _ (inr h))
            λ _ after k.
              if-Ends Bad (V.contains_finalizer c location_class_finalizer) _ _
                (λ there. pure-Ends Bad tt (λ result. held c k live (inl there)))
                (λ _.
                  request-Ends Bad _ _ _ (λ _ result. held c (inr k) live (inr (inl refl)))
                    (λ _. inl tt))

      module _ (dying : is_zero_time c.meta.deletion_timestamp ≡ false) where
        abbrev Patched : Calls V → Type 0
        Patched now =
            (V.contains_finalizer c location_class_finalizer ≡ false)
            ⊎ Some (IsPatched c (V.remove_finalizer c location_class_finalizer)) now

        keep-Patched : (call : Call V.Failure) (now : Calls V) → Patched now → Patched (call ∷ now)
        keep-Patched call now (inl absent) = inl absent
        keep-Patched call now (inr h) = inr (inr h)

        abbrev Free : Calls V → Type 0
        Free now = Here now × Some (IsUnreferenced V c.meta.name) now × Patched now

        let_go-Ends :
            (now : Calls V)
            → Here now
            → Some (IsUnreferenced V c.meta.name) now
            → Ends Good Bad now (let_go V c)
        unfolding let_go
        let_go-Ends now h free =
            bind-Ends Bad (λ _. Free)
              (bind-Ends Bad (λ _. Free)
                (if-Ends Bad (V.contains_finalizer c location_class_finalizer) _ _
                  (λ _.
                    request-Ends Bad _ _ _ (λ _. (inr h, inr free, inr (inl refl))) (λ _. inl tt))
                  (λ absent. pure-Ends Bad tt (h, free, inl absent)))
                λ _ after f. note-Ends Bad _ (inr f.0, inr f.1, keep-Patched _ after f.2))
              λ _ after f. pure-Ends Bad _ (released c f.0 dying f.1 f.2)

        abbrev Named : Calls V → Type 0
        Named now = Here now × Some (IsReferenced V c.meta.name) now

        record_blocked_deletion-Ends :
            (message : String) (now : Calls V)
            → Named now
            → Ends (λ _. Named) Bad now (record_blocked_deletion V c message)
        unfolding record_blocked_deletion
        record_blocked_deletion-Ends message now f =
            if-Ends Bad
              (index location_removal_blocked_annotation c.meta.annotations
                == location_class_blocked_reason <> ": " <> message)
              _ _ (λ _. pure-Ends Bad tt f)
              (λ _. request-Ends Bad _ _ _ (λ _. (inr f.0, inr f.1)) (λ _. inl tt))

        block-Ends :
            (r : Reconciler) (names : List String) (now : Calls V)
            → Named now
            → Ends Good Bad now (block V r c names)
        unfolding block send_event
        block-Ends r names now f =
            bind-Ends Bad (λ _. Named)
              (bind-Ends Bad (λ _. Named)
                (bind-Ends Bad (λ _. Named) (note-Ends Bad _ (inr f.0, inr f.1))
                  λ _ after g. record_blocked_deletion-Ends _ after g)
                λ _ after g.
                  if-Ends Bad r.recorder _ _ (λ _. note-Ends Bad _ (inr g.0, inr g.1))
                    (λ _. pure-Ends Bad tt g))
              λ _ after g. pure-Ends Bad _ (blocked c g.0 dying g.1 refl)

        release-Ends :
            (r : Reconciler) (now : Calls V) → Here now → Ends Good Bad now (release V r c)
        unfolding release
        release-Ends r now h =
            bind-Ends Bad _
              (frame-Ends Here (λ _ _ k. inr k) h (referencing_locations-Ends c.meta.name now))
              λ names after f.
                if-Ends Bad (is_empty names) _ _ (λ e. let_go-Ends after f.0 (f.1.0 e))
                  (λ e. block-Ends r names after (f.0, f.1.1 e))

    handle-Ends :
        (r : Reconciler) (answer : Except V.Failure LocationClass) (now : Calls V)
        → Ends Good Bad (Call.got_class name answer ∷ now) (handle V r name answer)
    handle-Ends r (ok c) now =
        if-Ends Bad (is_zero_time c.meta.deletion_timestamp) _ _
          (λ live.
            bind-Ends Bad _ (hold-Ends c _ live (inl refl)) λ _ after k. pure-Ends Bad _ (k _))
          (λ dying. release-Ends c dying r _ (inl refl))
    handle-Ends r (err e) now =
        if-Ends Bad (V.is_not_found e) _ _
          (λ gone.
            bind-Ends Bad
              (λ _ after.
                Some
                  (λ k.
                    (x : V.Failure) × (k ≡ Call.got_class name (err x)) × (V.is_not_found x ≡ true))
                  after)
              (note-Ends Bad _ (inr (inl (e, refl, gone))))
              λ _ after k. pure-Ends Bad _ (missing k))
          (λ failed. raise-Ends Bad _ (inl failed))

    reconcile-Ends : (r : Reconciler) → Ends Good Bad [] (reconcile V r name)
    unfolding reconcile
    reconcile-Ends r = query-bind-Ends Bad _ _ _ λ answer. handle-Ends r answer []

    -- A run of the class controller that ends in an error has had a call of a client that failed. Every
    -- other run has done one of four things: it has found no class; the class is not being deleted and
    -- has the finalizer, from before or by an accepted patch; the class is being deleted, a Location
    -- names it, and the run comes back after the blocked period; or the class is being deleted, none
    -- names it, and it has no finalizer, from before or by an accepted patch.
    pub reconcile-Settled :
        (r : Reconciler) (s : V.State)
        → Ended
            (λ result now. Outcome name result now)
            (λ now. Some HasFailed now)
            []
            (reconcile V r name s)
    reconcile-Settled r s = (reconcile-Ends r).run s
