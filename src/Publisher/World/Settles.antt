-- ===== src/Publisher/World/Settles.antt =====
-- Running the publisher again for the same name changes nothing more.
use mathlib.Core.Path.{fun_ext}
use locations.Prelude.{
  String, true, false, Option, none, some, List, [], Bool, if◌then◌else◌, arith, ◌≡◌, refl, sym, ap,
  ◌∙◌,
}
use locations.Prelude.{◌==◌, ◌||◌, eq_refl, is_empty, Bool-cases, Option-cases, inl, inr}
use locations.Prelude.GoMap.{GoMap, index}
use locations.Prelude.Text.Trim.{trim_space}
use locations.Prelude.Effect.{Except, ok, err}
use locations.Prelude.Steps.{Leaves}
use locations.Api.{Time, Location, topology_city_code_key}
use locations.Config.{LocationScopedResource}
use locations.Publisher.Client.{Env, Call, Error, Reconciler, Result}
use locations.Publisher.Policy.{location_propagation_policy_name, propagation_policy}
use locations.Publisher.Guard.{removal_decision}
use locations.Publisher.Publish.{
  trimmed_city_code, keep_published_at, desired_copy, published_content_equal,
}
use locations.Publisher.Publish.Republish.{HasUniqueKeys, keep_published_at-desired_copy}
use locations.Publisher.Reconcile.{reconcile}
use locations.Publisher.World.{
  Copy, View, World, put, merged, still_others, others_in, remaining, remaining_policy,
}
use locations.Publisher.World.Spec.{
  next, publishing, removing, after_publish, after_remove, published_copy, publication_time,
  is_foreign_copy, flag_of,
}
use locations.Publisher.World.Refines.{IsNext, reconcile-refines}

put_same : {A : Type 0} (n : String) (a : Option A) (f : String → Option A) → put n a f n ≡ a
put_same n a f = rw (eq_refl n) refl

put_twice :
    {A : Type 0} (n : String) (a b : Option A) (f : String → Option A)
    → put n b (put n a f) ≡ put n b f
put_twice n a b f = fun_ext λ k. ground arith

if_twice :
    {A : Type 0} (b : Bool) (x y : A)
    → (if b then x else (if b then x else y)) ≡ (if b then x else y)
if_twice true x y = refl
if_twice false x y = refl

if_same : {A : Type 0} (n : String) (x y : A) → (if n == n then x else y) ≡ x
if_same n x y = rw (eq_refl n) refl

if_kept :
    {A : Type 0} (b : Bool) (o : Option A)
    → (if b then (if b then o else none) else none) ≡ (if b then o else none)
if_kept true o = refl
if_kept false o = refl

-- The city code has no space around it, and each key is there once.
abbrev pub IsTidy : Location → Type 0
IsTidy l =
    HasUniqueKeys l.spec.topology
    × (trim_space (index topology_city_code_key l.spec.topology)
        ≡ index topology_city_code_key l.spec.topology)

merged_alone : (held : Option Copy) (m : GoMap) → merged (others_in held []) m ≡ m
merged_alone none m = refl
merged_alone (some c) m = refl

still_alone : (held : Option Copy) (m : GoMap) → still_others (others_in held []) m ≡ []
still_alone none m = refl
still_alone (some c) m = refl

-- The copy of a Location in which nobody else has an entry, with this time of publication.
abbrev alone : Option Copy → Location → Time → Copy
alone held l time = record {
  spec = record {
    topology = l.spec.topology;
    source = record { generation = l.meta.generation; published_at = time };
  };
  owned = true;
  override = flag_of (λ c. c.override) held;
  finalized = flag_of (λ c. c.finalized) held;
  deleting = flag_of (λ c. c.deleting) held;
}

published_alone :
    (t : Time) (held : Option Copy) (l : Location)
    → published_copy t [] held l ≡ alone held l (publication_time t held l)
published_alone t none l = refl
published_alone t (some c) l = refl

published_copy_idem :
    (t u : Time) (held : Option Copy) (l : Location)
    → IsTidy l
    → published_copy u [] (some (published_copy t [] held l)) l ≡ published_copy t [] held l
unfolding keep_published_at desired_copy published_content_equal
published_copy_idem t u held l (keys, tidy) =
    ap (λ c. published_copy u [] (some c) l) (published_alone t held l)
    ∙ ap (alone held l) (
        keep_published_at-desired_copy l (publication_time t held l) u keys
        ∙ rw (tidy, eq_refl (index topology_city_code_key l.spec.topology)) refl)
    ∙ sym (published_alone t held l)

module _ (scoped : List LocationScopedResource) where
  -- The view once this copy of a Location, its own alone, and its policy are written.
  abbrev placed : Location → Copy → View → View
  placed l c v = record v {
    copies = put l.meta.name (some c) v.copies;
    policies =
        put (location_propagation_policy_name l.meta.name)
          (some (propagation_policy scoped l.meta.name)) v.policies;
    others = λ k. if l.meta.name == k then [] else v.others k;
  }

  after_publish-placed :
      (t : Time) (l : Location) (v : View)
      → v.others l.meta.name ≡ []
      → after_publish scoped t l v ≡ placed l (published_copy t [] (v.copies l.meta.name) l) v
  after_publish-placed t l v sole = λ i. record v {
    copies =
        ap (λ os. put l.meta.name (some (published_copy t os (v.copies l.meta.name) l)) v.copies)
          sole i;
    policies =
        put (location_propagation_policy_name l.meta.name)
          (some (propagation_policy scoped l.meta.name)) v.policies;
    others =
        ap {B = String → GoMap} (λ os. λ k. if l.meta.name == k then os else v.others k)
          (ap (λ os. still_others (others_in (v.copies l.meta.name) os) l.spec.topology) sole
            ∙ still_alone (v.copies l.meta.name) l.spec.topology)
          i;
  }

  placed_twice :
      (l : Location) (c d : Copy) (v : View) → d ≡ c → placed l d (placed l c v) ≡ placed l c v
  placed_twice l c d v same = λ i. record v {
    copies =
        (ap (λ x. put l.meta.name (some x) (put l.meta.name (some c) v.copies)) same
            ∙ put_twice l.meta.name (some c) (some c) v.copies)
          i;
    policies =
        put_twice (location_propagation_policy_name l.meta.name)
          (some (propagation_policy scoped l.meta.name))
          (some (propagation_policy scoped l.meta.name)) v.policies i;
    others =
        fun_ext
          {f = λ k. if l.meta.name == k then [] else (if l.meta.name == k then [] else v.others k)}
          {g = λ k. if l.meta.name == k then [] else v.others k}
          (λ k. if_twice (l.meta.name == k) [] (v.others k)) i;
  }

  after_publish_idem :
      (t u : Time) (l : Location) (v : View)
      → IsTidy l
      → v.others l.meta.name ≡ []
      → after_publish scoped u l (after_publish scoped t l v) ≡ after_publish scoped t l v
  after_publish_idem t u l v tidy sole =
      let first = published_copy t [] (v.copies l.meta.name) l in
      ap (after_publish scoped u l) (after_publish-placed t l v sole)
      ∙ after_publish-placed u l (placed l first v) (if_same l.meta.name [] (v.others l.meta.name))
      ∙ placed_twice l first _ v (
          ap (λ o. published_copy u [] o l) (put_same l.meta.name (some first) v.copies)
          ∙ published_copy_idem t u (v.copies l.meta.name) l tidy)
      ∙ sym (after_publish-placed t l v sole)

  remaining_idem : (o : Option Copy) → remaining (remaining o) ≡ remaining o
  remaining_idem none = refl
  remaining_idem (some c) = ground arith

  after_remove_idem :
      (name : String) (v : View) → after_remove name (after_remove name v) ≡ after_remove name v
  after_remove_idem name v =
      let policy = location_propagation_policy_name name in
      λ i. record v {
        copies =
            (ap (λ o. put name (remaining o) (put name (remaining (v.copies name)) v.copies))
                  (put_same name (remaining (v.copies name)) v.copies)
                ∙ ap (λ o. put name o (put name (remaining (v.copies name)) v.copies))
                    (remaining_idem (v.copies name))
                ∙ put_twice name (remaining (v.copies name)) (remaining (v.copies name)) v.copies)
              i;
        policies =
            (ap
                  (λ o.
                    put policy (if v.pinned policy then o else none)
                      (put policy (remaining_policy policy v) v.policies))
                  (put_same policy (remaining_policy policy v) v.policies)
                ∙ ap (λ o. put policy o (put policy (remaining_policy policy v) v.policies))
                    (if_kept (v.pinned policy) (v.policies policy))
                ∙ put_twice policy (remaining_policy policy v) (remaining_policy policy v)
                    v.policies)
              i;
      }

  ours :
      (t : Time) (l : Location) (v : View)
      → is_foreign_copy (
          put l.meta.name
            (some (published_copy t (v.others l.meta.name) (v.copies l.meta.name) l))
            v.copies
            l.meta.name)
        ≡ false
  ours t l v = ap is_foreign_copy (
      put_same l.meta.name (some (published_copy t (v.others l.meta.name) (v.copies l.meta.name) l))
        v.copies)

  -- Once more after a run that had a Location.
  publishing_idem :
      (t u : Time) (name : String) (l : Location) (v : View)
      → v.sources name ≡ some l
      → IsTidy l
      → v.others l.meta.name ≡ []
      → next scoped u name (publishing scoped t l v) ≡ publishing scoped t l v
  unfolding next
  publishing_idem t u name l v e tidy sole = elim (Bool-cases (trimmed_city_code l == "")) [
    | inl blank ↦ rw (blank, e, blank) refl
    | inr coded ↦ elim (Bool-cases (is_foreign_copy (v.copies l.meta.name))) [
      | inl foreign ↦ rw (coded, foreign, e, coded, foreign) refl
      | inr free ↦ rw (coded, free, e, coded, ours t l v) (after_publish_idem t u l v tidy sole)
    ]
  ]

  -- What is left of a removed copy is removed again, to no effect.
  removing-remaining :
      (name : String) (c : Copy) (v w : View)
      → w ≡ after_remove name v
      → c.owned ≡ true
      → is_empty v.listing ≡ false
      → (c.override || (removal_decision name v.clusters).allowed) ≡ true
      → removing name (remaining (some c)) w ≡ w
  removing-remaining name c v w e owned full go = e_back (elim (Bool-cases c.finalized) [
    | inl kept ↦ rw (kept, owned, full, go) (after_remove_idem name v)
    | inr free ↦ rw free refl
  ])
    where
      e_back :
          removing name (remaining (some c)) (after_remove name v) ≡ after_remove name v
          → removing name (remaining (some c)) w ≡ w
      e_back h = ap (removing name (remaining (some c))) e ∙ h ∙ sym e

  removed_idem :
      (u : Time) (name : String) (v : View) (c : Copy)
      → v.sources name ≡ none
      → v.copies name ≡ some c
      → c.owned ≡ true
      → is_empty v.listing ≡ false
      → (c.override || (removal_decision name v.clusters).allowed) ≡ true
      → next scoped u name (removing name (v.copies name) v) ≡ removing name (v.copies name) v
  unfolding next
  removed_idem u name v c gone held owned full go =
      let w : removing name (v.copies name) v ≡ after_remove name v =
        ap (λ o. removing name o v) held ∙ rw (owned, full, go) refl in
      ap (next scoped u name) w
      ∙ rw gone (
          ap (λ o. removing name o (after_remove name v))
            (put_same name (remaining (v.copies name)) v.copies ∙ ap remaining held)
          ∙ removing-remaining name c v (after_remove name v) refl owned full go)
      ∙ sym w

  removing_idem :
      (u : Time) (name : String) (v : View)
      → v.sources name ≡ none
      → next scoped u name (removing name (v.copies name) v) ≡ removing name (v.copies name) v
  unfolding next
  removing_idem u name v e = elim (Option-cases (v.copies name)) [
    | inl empty ↦ rw (empty, e, empty) refl
    | inr (c, held) ↦ elim (Bool-cases c.owned) [
      | inr foreign ↦ rw (held, foreign, e, held, foreign) refl
      | inl owned ↦ elim (Bool-cases (is_empty v.listing)) [
        | inl barred ↦ rw (held, owned, barred, e, held, owned, barred) refl
        | inr full ↦ elim (Bool-cases (c.override || (removal_decision name v.clusters).allowed)) [
          | inl go ↦ removed_idem u name v c e held owned full go
          | inr stay ↦ rw (held, owned, full, stay, e, held, owned, full, stay) refl
        ]
      ]
    ]
  ]

  -- A second run of the specification changes nothing more.
  next_idem :
      (t u : Time) (name : String) (v : View)
      → ((l : Location) → v.sources name ≡ some l → IsTidy l × (v.others l.meta.name ≡ []))
      → next scoped u name (next scoped t name v) ≡ next scoped t name v
  unfolding next
  next_idem t u name v tidy = elim (Option-cases (v.sources name)) [
    | inl gone ↦ rw gone (removing_idem u name v gone)
    | inr (l, here) ↦ rw here (publishing_idem t u name l v here (tidy l here).0 (tidy l here).1)
  ]

module _ (V : Env) (W : World V) (r : Reconciler) (name : String) where
  abbrev pub scoped_resources : List LocationScopedResource
  scoped_resources = r.config.location_scoped_resources

  -- The view after a run.
  abbrev pub view_after : V.State → View
  view_after s = W.view (reconcile V r name s).1

  pub view_after-next :
      (s : V.State) → (clock : Time) × (view_after s ≡ next scoped_resources clock name (W.view s))
  view_after-next s = of_Leaves (reconcile V r name s) (reconcile-refines V W r name s)
    where
      of_Leaves :
          (run : Except (Error V.Failure) Result × V.State × List (Call V.Failure))
          → Leaves W.view (IsNext V W r name (W.view s)) (λ _. ⊥) run
          → (clock : Time) × (W.view run.1
              ≡ next r.config.location_scoped_resources clock name (W.view s))
      of_Leaves (ok a, s', l) h = h
      of_Leaves (err e, s', l) h = absurd h

  -- Where the clients' calls succeed as documented and nothing else changes the control planes, a second
  -- run for the same name leaves the view as the first run left it, if the Location of that name, where
  -- there is one, has a city code with no space around it and a topology with each key once, and no
  -- other field manager has an entry in the topology of its copy.
  pub reconcile-settles :
      (s : V.State)
      → ((l : Location)
          → (W.view s).sources name ≡ some l
          → IsTidy l × ((W.view s).others l.meta.name ≡ []))
      → view_after (reconcile V r name s).1 ≡ view_after s
  reconcile-settles s tidy =
      let (t, first) = view_after-next s in
      let (u, second) = view_after-next (reconcile V r name s).1 in
      second
      ∙ ap (next scoped_resources u name) first
      ∙ next_idem scoped_resources t u name (W.view s) tidy
      ∙ sym first
