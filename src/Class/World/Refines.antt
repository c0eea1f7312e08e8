-- ===== src/Class/World/Refines.antt =====
-- A run of the class controller does to the control plane what the specification says.
use mathlib.Core.Path.{fun_ext, subst}
use locations.Prelude.{
  String, Bool, Option, not, true, false, some, List, [], ◌∷◌, arith, ◌≡◌, ◌≢◌, refl, sym, ap, ◌∙◌,
  ◌==◌, ◌&&◌, ◌<>◌, eq_iff, is_empty, if◌then◌else◌, Bool-cases, inl, inr,
}
use locations.Prelude.Effect.{Except, ok, err}
use locations.Prelude.GoMap.{index}
use locations.Prelude.Text.Sort.{sort, sort-eq-nil}
use locations.Prelude.Steps.{
  Answers, Takes, Leaves, bind-Takes, read-bind-Takes, still-bind-Takes, pure-Takes, note-Takes,
  done-Takes, if-Takes, weaken-Takes,
}
use locations.Api.{Location, LocationClass, is_zero_time}
use locations.Publisher.Ownership.{location_removal_blocked_annotation}
use locations.Class.Index.{location_class_finalizer}
use locations.Class.Client.{Env, Reconciler, send_event}
use locations.Class.Reconcile.{
  location_names, hold, referencing_locations, record_blocked_deletion, let_go, block, release,
  handle, reconcile, location_class_blocked_reason,
}
use locations.Class.World.{
  Status, View, World, IsLookup, status, put_class, naming, settled, surviving, after_patch,
  MayPatch, next,
}

is_empty-sort : (ls : List Location) → is_empty (sort (location_names ls)) ≡ is_empty ls
unfolding sort
is_empty-sort [] = refl
is_empty-sort (l ∷ ls) = elim (Bool-cases (is_empty (sort (location_names (l ∷ ls))))) [
  | inl e ↦ absurd (cons_ne_nil (sort-eq-nil _ (eq_nil _ e)))
  | inr e ↦ e
]
  where
    eq_nil : (names : List String) → is_empty names ≡ true → names ≡ []
    eq_nil [] e = refl
    eq_nil (n ∷ names) e = cc

    cons_ne_nil : location_names (l ∷ ls) ≢ []
    cons_ne_nil e = cc

-- Nothing changes where the class is put back as it is.
put_class-held :
    (n : String) (c : Status) (v : View) → v.classes n ≡ some c → v ≡ put_class n (some c) v
put_class-held n c v there = λ i. record v {
  classes =
      fun_ext {f = v.classes} {g = λ k. if n == k then some c else v.classes k} (λ k. same k) i;
}
  where
    same : (k : String) → v.classes k ≡ (if n == k then some c else v.classes k)
    same k = elim (Bool-cases (n == k)) [
      | inl e ↦ rw e (ap v.classes (sym ((eq_iff n k).0 e)) ∙ there)
      | inr e ↦ rw e refl
    ]

after_patch_same : (c : Status) → after_patch c c ≡ some c
after_patch_same c = by_flag c.held
  where
    by_flag : (b : Bool) → (if b && not b then surviving c else some c) ≡ some c
    by_flag true = refl
    by_flag false = refl

abbrev Never : View → Type 0
Never v = ⊥

module _ (V : Env) (W : World V) (c : LocationClass) (v : View) where
  abbrev n : String
  n = c.meta.name

  -- The run leaves the class with this status.
  abbrev Puts : Option Status → {A : Type 0} → A → View → Type 0
  Puts d a w = w ≡ put_class n d v

  -- The class once its finalizer is off.
  abbrev let_gone : Option Status
  let_gone =
      if V.contains_finalizer c location_class_finalizer
      then surviving (record (status V c) { held = false })
      else some (status V c)

  module _ (there : v.classes n ≡ some (status V c)) where
    -- What a patch to a class of this status leaves.
    patch_to :
        (new : LocationClass) (d : Status)
        → status V new ≡ d
        → MayPatch (status V c) d
        → Answers W.view
            (λ a w. (w ≡ put_class n (after_patch (status V c) d) v) × (a ≡ ok tt))
            v
            (V.patch c new)
    patch_to new d e may =
        subst
          (λ x.
            Answers W.view (λ a w. (w ≡ put_class n (after_patch (status V c) x) v) × (a ≡ ok tt)) v
              (V.patch c new))
          e (W.patch c new v there (subst (MayPatch (status V c)) (sym e) may))

    hold-Takes :
        is_zero_time c.meta.deletion_timestamp ≡ true
        → Takes W.view (Puts (some (record (status V c) { held = true }))) Never v (hold V c)
    unfolding hold
    hold-Takes live =
        still-bind-Takes W.view Never (λ _. Unit {0}) (note-Takes W.view Never _ (refl, tt))
          λ _ _.
            if-Takes W.view Never (V.contains_finalizer c location_class_finalizer) _ _
              (λ held. pure-Takes W.view Never tt (put_class-held n _ v (there ∙ rw held refl)))
              (λ free.
                done-Takes W.view Never _ tt _ _ _
                  (patch_to _ _ (W.status-add c)
                    (refl, refl, λ dying. absurd (ground (arith, dying, live))))
                  (ap (λ d. put_class n d v) (rw free refl)))

    let_go-Takes : Takes W.view (Puts let_gone) Never v (let_go V c)
    unfolding let_go
    let_go-Takes =
        bind-Takes W.view Never released
          (bind-Takes W.view Never released
            (if-Takes W.view Never (V.contains_finalizer c location_class_finalizer) _ _
              (λ held.
                done-Takes W.view Never _ tt _ _ _
                  (patch_to _ _ (W.status-remove c) (refl, refl, λ _ e. absurd (ground (arith, e))))
                  (ap (λ d. put_class n d v) (rw held refl)))
              (λ free.
                pure-Takes W.view Never tt
                  (put_class-held n _ v there ∙ ap (λ d. put_class n d v) (rw free refl))))
            λ _ w e. note-Takes W.view Never _ e)
          λ _ w e. pure-Takes W.view Never _ e
      where
        released : Unit {0} → View → Type 0
        released a w = Puts let_gone a w

    record_blocked_deletion-Takes :
        (message : String)
        → Takes W.view (Puts (some (status V c))) Never v (record_blocked_deletion V c message)
    unfolding record_blocked_deletion
    record_blocked_deletion-Takes message =
        if-Takes W.view Never
          (index location_removal_blocked_annotation c.meta.annotations
            == location_class_blocked_reason <> ": " <> message)
          _ _ (λ _. pure-Takes W.view Never tt (put_class-held n _ v there))
          (λ _.
            done-Takes W.view Never _ tt _ _ _
              (patch_to _ _ (W.status-annotate c _) (refl, refl, λ _ e. e))
              (ap (λ d. put_class n d v) (after_patch_same (status V c))))

    block-Takes :
        (r : Reconciler) (names : List String)
        → Takes W.view (Puts (some (status V c))) Never v (block V r c names)
    unfolding block send_event
    block-Takes r names =
        bind-Takes W.view Never blocked
          (bind-Takes W.view Never blocked
            (still-bind-Takes W.view Never (λ _. Unit {0}) (note-Takes W.view Never _ (refl, tt))
              λ _ _. record_blocked_deletion-Takes _)
            λ _ w e.
              if-Takes W.view Never r.recorder _ _ (λ _. note-Takes W.view Never _ e)
                (λ _. pure-Takes W.view Never tt e))
          λ _ w e. pure-Takes W.view Never _ e
      where
        blocked : Unit {0} → View → Type 0
        blocked a w = Puts (some (status V c)) a w

    referencing_locations-Takes :
        Takes W.view
          (λ names w. (w ≡ v) × (is_empty names ≡ is_empty (naming n v.locations)))
          Never
          v
          (referencing_locations V n)
    unfolding referencing_locations
    referencing_locations-Takes =
        still-bind-Takes W.view Never (λ ls. ls ≡ naming n v.locations)
          (done-Takes W.view Never v (naming n v.locations) _ _ _ (W.list_matching n v)
            (refl, refl))
          λ ls e. pure-Takes W.view Never _ (refl, rw e (is_empty-sort (naming n v.locations)))

    release-Takes :
        (r : Reconciler)
        → is_zero_time c.meta.deletion_timestamp ≡ false
        → Takes W.view
            (Puts (settled (status V c) (is_empty (naming n v.locations))))
            Never
            v
            (release V r c)
    unfolding release
    release-Takes r dying =
        still-bind-Takes W.view Never (λ names. is_empty names ≡ is_empty (naming n v.locations))
          referencing_locations-Takes
          λ names same.
            if-Takes W.view Never (is_empty names) _ _
              (λ e.
                weaken-Takes W.view Never (λ _ w q. q ∙ rw (sym same, e, dying) refl) let_go-Takes)
              (λ e.
                weaken-Takes W.view Never (λ _ w q. q ∙ rw (sym same, e, dying) refl)
                  (block-Takes r names))

module _ (V : Env) (W : World V) (r : Reconciler) (name : String) where
  handle-Takes :
      (v : View) (found : Except V.Failure LocationClass)
      → IsLookup V name found (v.classes name)
      → Takes W.view (λ _ w. w ≡ next name v) Never v (handle V r name found)
  unfolding next
  handle-Takes v (ok c) (there, named) =
      let here : v.classes c.meta.name ≡ some (status V c) = ap v.classes named ∙ there in
      if-Takes W.view Never (is_zero_time c.meta.deletion_timestamp) _ _
        (λ live.
          bind-Takes W.view Never (λ _ w. w ≡ next name v)
            (weaken-Takes W.view Never (λ _ w q. q ∙ rw (there, sym named, live) refl)
              (hold-Takes V W c v here live))
            λ _ w e. pure-Takes W.view Never _ e)
        (λ dying.
          weaken-Takes W.view Never (λ _ w q. q ∙ rw (there, sym named) refl)
            (release-Takes V W c v here r dying))
  handle-Takes v (err e) (gone, missing) =
      if-Takes W.view Never (V.is_not_found e) _ _
        (λ _.
          still-bind-Takes W.view Never (λ _. Unit {0}) (note-Takes W.view Never _ (refl, tt))
            λ _ _. pure-Takes W.view Never _ (rw gone refl))
        (λ failed. absurd (ground (arith, missing, failed)))

  reconcile-Takes : (v : View) → Takes W.view (λ _ w. w ≡ next name v) Never v (reconcile V r name)
  unfolding reconcile
  reconcile-Takes v =
      read-bind-Takes W.view Never (λ a. IsLookup V name a (v.classes name)) _ _ _ (W.get name v)
        λ found known. handle-Takes v found known

  pub reconcile-refines_next :
      (s : V.State)
      → Leaves W.view (λ _ w. w ≡ next name (W.view s)) (λ _. ⊥) (reconcile V r name s)
  reconcile-refines_next s = (reconcile-Takes (W.view s)).run s refl
