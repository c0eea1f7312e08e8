-- ===== src/Class/Finalizer.antt =====
-- When the class controller may write to a class: what has to have been read before each patch.
use locations.Prelude.{String, true, false, List, [], ◌∷◌, ◌≡◌, ◌≢◌, refl, ◌⊎◌, inl, inr}
use locations.Prelude.{◌<>◌, is_empty, ◌==◌}
use locations.Prelude.Effect.{Except, ok, err}
use locations.Prelude.GoMap.{insert, index}
use locations.Prelude.Text.Sort.{sort, sort-eq-nil}
use locations.Prelude.Trace.{
  Some, Traced, Justified, bind-Traced, query-bind-Traced, request-Traced, note-bind-Traced,
  note-Traced, weaken, Holds-Justified, pure-Traced, raise-Traced, if-Traced, frame,
}
use locations.Api.{Location, LocationClass, is_zero_time}
use locations.Publisher.Ownership.{location_removal_blocked_annotation}
use locations.Class.Index.{location_class_finalizer}
use locations.Class.Client.{Env, Call, Reconciler, send_event}
use locations.Class.Reconcile.{
  location_names, with_annotations, hold, referencing_locations, record_blocked_deletion, let_go,
  block, release, handle, reconcile, location_class_blocked_reason,
}

module _ (V : Env) where
  abbrev pub Calls : Type 0
  Calls = List (Call V.Failure)

  -- The class was read in this state, under this name.
  abbrev pub IsRead : String → LocationClass → Call V.Failure → Type 0
  IsRead name c call = call ≡ Call.got_class name (ok c)

  -- No Location was listed under this class.
  abbrev pub IsUnreferenced : String → Call V.Failure → Type 0
  IsUnreferenced name call = call ≡ Call.listed_locations name (ok [])

  -- Some Location was.
  abbrev pub IsReferenced : String → Call V.Failure → Type 0
  IsReferenced name call =
      (l : Location) × (ls : List Location) × (call ≡ Call.listed_locations name (ok (l ∷ ls)))

  -- The patch adds the finalizer to a class that is not being deleted and does not have it.
  abbrev pub IsHold : LocationClass → LocationClass → Type 0
  IsHold old new =
      (is_zero_time old.meta.deletion_timestamp ≡ true)
      × (V.contains_finalizer old location_class_finalizer ≡ false)
      × (new ≡ V.add_finalizer old location_class_finalizer)

  -- The patch removes the finalizer from a class that is being deleted and that nothing names.
  abbrev pub IsRelease : Calls → LocationClass → LocationClass → Type 0
  IsRelease now old new =
      (is_zero_time old.meta.deletion_timestamp ≡ false)
      × (new ≡ V.remove_finalizer old location_class_finalizer)
      × Some (IsUnreferenced old.meta.name) now

  -- The patch changes the annotation of a class that is being deleted and that something names.
  abbrev pub IsBlock : Calls → LocationClass → LocationClass → Type 0
  IsBlock now old new =
      (is_zero_time old.meta.deletion_timestamp ≡ false)
      × ((text : String) × (new
            ≡ with_annotations
                (insert location_removal_blocked_annotation text old.meta.annotations) old))
      × Some (IsReferenced old.meta.name) now

  -- What a call needs before it. Only the patches and the events need anything.
  abbrev pub Justification : String → Calls → Call V.Failure → Type 0
  Justification name now (Call.patched_class old new answer) =
      Some (IsRead name old) now × (IsHold old new ⊎ IsRelease now old new ⊎ IsBlock now old new)
  Justification name now (Call.event subject type reason action message) =
      Some (IsReferenced subject) now
  Justification name now _ = Unit

  -- What the names that `referencing_locations` returns say of the listing.
  abbrev pub Counted : String → List String → Calls → Type 0
  Counted name names now =
      (is_empty names ≡ true → Some (IsUnreferenced name) now)
      × (is_empty names ≡ false → Some (IsReferenced name) now)

  true-ne-false : true ≢ false
  true-ne-false e = cc

  is_empty-eq-nil : (names : List String) → is_empty names ≡ true → names ≡ []
  is_empty-eq-nil [] e = refl
  is_empty-eq-nil (n ∷ names) e = cc

  location_names-ne-nil : (l : Location) (ls : List Location) → location_names (l ∷ ls) ≢ []
  location_names-ne-nil l ls e = cc

  pub sorted_names-Counted :
      (name : String) (ls : List Location) (now : Calls)
      → Counted name (sort (location_names ls)) (Call.listed_locations name (ok ls) ∷ now)
  unfolding sort
  sorted_names-Counted name [] now = (λ _. inl refl, λ e. absurd (true-ne-false e))
  sorted_names-Counted name (l ∷ ls) now = (
    λ e. absurd (location_names-ne-nil l ls (sort-eq-nil _ (is_empty-eq-nil _ e))),
    λ _. inl (l, ls, refl),
  )

  module _ (name : String) where
    abbrev J : Calls → Call V.Failure → Type 0
    J = Justification name

    abbrev Done : {A : Type 0} → A → Calls → Type 0
    Done a now = Unit {0}

    referencing_locations-Traced :
        (subject : String) (now : Calls)
        → Traced J (Counted subject) now (referencing_locations V subject)
    unfolding referencing_locations
    referencing_locations-Traced subject now =
        bind-Traced J
          (λ ls after. (before : Calls) × (after ≡ Call.listed_locations subject (ok ls) ∷ before))
          (request-Traced J _ _ _ (λ _. tt) (λ ls. (now, refl)))
          λ ls after (before, e). pure-Traced J _ (rw e (sorted_names-Counted subject ls before))

    module _ (c : LocationClass) where
      hold-Traced :
          (now : Calls)
          → is_zero_time c.meta.deletion_timestamp ≡ true
          → Some (IsRead name c) now
          → Traced J Done now (hold V c)
      unfolding hold
      hold-Traced now live known = note-bind-Traced J _ _ tt (
          if-Traced J (V.contains_finalizer c location_class_finalizer) _ _
            (λ _. pure-Traced J tt tt)
            (λ free. request-Traced J _ _ _ (λ _. (inr known, inl (live, free, refl))) (λ _. tt)))

      module _ (dying : is_zero_time c.meta.deletion_timestamp ≡ false) where
        let_go-Traced :
            (now : Calls)
            → Some (IsRead name c) now
            → Some (IsUnreferenced c.meta.name) now
            → Traced J Done now (let_go V c)
        unfolding let_go
        let_go-Traced now known free =
            bind-Traced J Done
              (bind-Traced J Done
                (if-Traced J (V.contains_finalizer c location_class_finalizer) _ _
                  (λ _.
                    request-Traced J _ _ _ (λ _. (known, inr (inl (dying, refl, free)))) (λ _. tt))
                  (λ _. pure-Traced J tt tt))
                λ _ after _. note-Traced J _ tt tt)
              λ _ _ _. pure-Traced J _ tt

        abbrev IsB : Unit {0} → Calls → Type 0
        IsB _ now = Some (IsRead name c) now × Some (IsReferenced c.meta.name) now

        abbrev IsBlocked : Calls → Type 0
        IsBlocked now = Some (IsRead name c) now × Some (IsReferenced c.meta.name) now

        keep-IsBlocked :
            (call : Call V.Failure) (now : Calls) → IsBlocked now → IsBlocked (call ∷ now)
        keep-IsBlocked call now (a, b) = (inr a, inr b)

        record_blocked_deletion-Traced :
            (message : String) (now : Calls)
            → IsBlocked now
            → Traced J Done now (record_blocked_deletion V c message)
        unfolding record_blocked_deletion
        record_blocked_deletion-Traced message now (known, named) =
            if-Traced J
              (index location_removal_blocked_annotation c.meta.annotations
                == location_class_blocked_reason <> ": " <> message)
              _ _ (λ _. pure-Traced J tt tt)
              (λ _.
                request-Traced J _ _ _
                  (λ _. (
                    known,
                    inr (
                        inr
                          (dying, (location_class_blocked_reason <> ": " <> message, refl), named)),
                  ))
                  (λ _. tt))

        block-Traced :
            (r : Reconciler) (names : List String) (now : Calls)
            → IsBlocked now
            → Traced J Done now (block V r c names)
        unfolding block send_event
        block-Traced r names now facts =
            bind-Traced J Done
              (bind-Traced J IsB
                (bind-Traced J IsB (note-Traced J _ tt (keep-IsBlocked _ _ facts)) λ _ after facts'.
                  weaken J _ (λ _ _ both. both.0)
                    (frame J IsBlocked keep-IsBlocked facts'
                      (record_blocked_deletion-Traced _ after facts')))
                λ _ after facts'.
                  if-Traced J r.recorder _ _ (λ _. note-Traced J _ (facts'.1) tt)
                    (λ _. pure-Traced J tt tt))
              λ _ _ _. pure-Traced J _ tt

        release-Traced :
            (r : Reconciler) (now : Calls)
            → Some (IsRead name c) now
            → Traced J Done now (release V r c)
        unfolding release
        release-Traced r now known =
            bind-Traced J _
              (frame J (Some (IsRead name c)) (λ _ _ k. inr k) known
                (referencing_locations-Traced c.meta.name now))
              λ names after (known', (free, named)).
                if-Traced J (is_empty names) _ _ (λ e. let_go-Traced after known' (free e))
                  (λ e. block-Traced r names after (known', named e))

    handle-Traced :
        (r : Reconciler) (answer : Except V.Failure LocationClass) (now : Calls)
        → Traced J Done (Call.got_class name answer ∷ now) (handle V r name answer)
    handle-Traced r (ok c) now =
        if-Traced J (is_zero_time c.meta.deletion_timestamp) _ _
          (λ live. bind-Traced J Done (hold-Traced c _ live (inl refl)) λ _ _ _. pure-Traced J _ tt)
          (λ dying. release-Traced c dying r _ (inl refl))
    handle-Traced r (err e) now =
        if-Traced J (V.is_not_found e) _ _ (λ _. note-bind-Traced J _ _ tt (pure-Traced J _ tt))
          (λ _. raise-Traced J _)

    reconcile-Traced : (r : Reconciler) → Traced J Done [] (reconcile V r name)
    unfolding reconcile
    reconcile-Traced r = query-bind-Traced J _ _ _ (λ _. tt) λ answer. handle-Traced r answer []

    -- Every patch and every event of a run of the class controller is justified by the calls before
    -- it in the same run. Each patch is of the class that the run has read. The finalizer is
    -- added only to a class that is not being deleted and does not have it. It is removed only from a
    -- class that is being deleted, after a listing of the Locations that name the class has come
    -- back empty. The annotation that says why a deletion waits is written only on a class that
    -- is being deleted, and it and the event only after that listing has returned some Location.
    pub reconcile-Guarded :
        (r : Reconciler) (s : V.State) → Justified (Justification name) [] (reconcile V r name s).2
    reconcile-Guarded r s = Holds-Justified J Done [] _ ((reconcile-Traced r).run s)
