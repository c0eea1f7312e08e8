-- ===== src/Publisher/World/Publishing.antt =====
-- Publishing a Location, on views.
use locations.Prelude.{String, not, is_empty, if◌then◌else◌, false, Option, none, some, arith}
use locations.Prelude.{◌≡◌, refl, sym, ap, ◌∙◌, ◌==◌, eq_refl}
use locations.Prelude.Effect.{Except, ok, err}
use locations.Prelude.GoMap.{GoMap, contains, erase, insert, lookup-erase, lookup-insert}
use locations.Prelude.Steps.{
  Takes, bind-Takes, read-bind-Takes, still-bind-Takes, pure-Takes, note-Takes, done-Takes,
  if-Takes, weaken-Takes,
}
use locations.Api.{Time, zero_time, is_zero_time, Location, ServingLocation}
use locations.Publisher.Client.{Env, M, Reconciler}
use locations.Publisher.Ownership.{
  owns_object, location_removal_blocked_annotation, location_removal_override_annotation,
}
use locations.Publisher.Policy.{apply_propagation_policy, propagation_policy}
use locations.Publisher.Hub.{read_answer, read_published, clear_blocked, with_annotations}
use locations.Publisher.Publish.{
  trimmed_city_code, is_unowned, keep_published_at, published_content_equal, desired_copy,
  write_copy, publish_owned, publish_with_city, publish,
}
use locations.Publisher.Removal.{has_override}
use locations.Publisher.World.{
  Copy, View, World, content, applied, put, still_others, others_in, IsLookup, copy_meta,
}
use locations.Publisher.World.Spec.{published_copy, after_publish, publishing, is_foreign_copy}
use locations.Publisher.World.Still.{
  Still, Never, report_foreign_managers-Still, refresh_matched_clusters-Still,
  refuse_without_city-Still, refuse_unlabelled-Still,
}

-- The content of an object, given what it has under the override's key.
abbrev flagged : ServingLocation → Option String → Copy
flagged p o = record {
  spec = p.spec;
  owned = owns_object p.meta;
  override = elim o [ none ↦ "" | some v ↦ v ] == "true";
  finalized = not (is_empty p.meta.finalizers);
  deleting = not (is_zero_time p.meta.deletion_timestamp);
}

-- The annotation that is erased or set is another one than the override.
erase-content :
    (p : ServingLocation)
    → content p
      ≡ content (with_annotations (erase location_removal_blocked_annotation p.meta.annotations) p)
unfolding has_override
erase-content p = sym (
    ap (flagged p) (
      lookup-erase location_removal_blocked_annotation location_removal_override_annotation
        p.meta.annotations))

pub insert-content :
    (text : String) (p : ServingLocation)
    → content p
      ≡ content
          (with_annotations (insert location_removal_blocked_annotation text p.meta.annotations) p)
unfolding has_override
insert-content text p = sym (
    ap (flagged p) (
      lookup-insert location_removal_blocked_annotation location_removal_override_annotation text
        p.meta.annotations))

-- What was read of a name's copy.
abbrev pub IsReading : String → Option ServingLocation → Option Copy → Type 0
IsReading n none o = o ≡ none
IsReading n (some p) o = (o ≡ some (content p)) × (p.meta.name ≡ n)

module _ (V : Env) (W : World V) (r : Reconciler) where
  abbrev Kept : {A : Type 0} → View → (A → Type 0) → A → View → Type 0
  Kept v P a w = (w ≡ v) × P a

  read_answer-Takes :
      (n : String) (v : View) (answer : Except V.Failure ServingLocation)
      → IsLookup V content copy_meta n answer (v.copies n)
      → Takes W.view
          (λ o w. (w ≡ v) × IsReading n o (v.copies n))
          (λ _. ⊥)
          v
          (read_answer V n answer)
  read_answer-Takes n v (ok p) known = pure-Takes W.view _ (some p) (refl, known)
  read_answer-Takes n v (err e) known =
      if-Takes W.view _ (V.is_not_found e) _ _ (λ _. pure-Takes W.view _ none (refl, known.0))
        (λ failed. absurd (ground (arith, known.1, failed)))

  pub read_published-Takes :
      (n : String) (v : View)
      → Takes W.view (λ o w. (w ≡ v) × IsReading n o (v.copies n)) (λ _. ⊥) v (read_published V n)
  unfolding read_published
  read_published-Takes n v =
      read-bind-Takes W.view _ _ _ _ _ (W.get_copy n v)
        λ answer known. read_answer-Takes n v answer known

  clear_blocked-Still :
      (v : View) (n : String) (held : Option ServingLocation) (c : Copy)
      → v.copies n ≡ some c
      → ((p : ServingLocation) → held ≡ some p → p.meta.name ≡ n)
      → Still V W r v (clear_blocked V held)
  unfolding clear_blocked
  clear_blocked-Still v n none c there named = pure-Takes W.view _ tt (refl, tt)
  clear_blocked-Still v n (some p) c there named =
      if-Takes W.view _ (contains location_removal_blocked_annotation p.meta.annotations) _ _
        (λ _.
          done-Takes W.view _ v tt _ _ _
            (W.patch p _ v c (rw (named p refl) there) (erase-content p)) (refl, tt))
        (λ _. pure-Takes W.view _ tt (refl, tt))

  pub Still-Takes :
      {A : Type 0} {v : View} {m : M V A}
      → Still V W r v m
      → Takes W.view (λ _ w. w ≡ v) (λ _. ⊥) v m
  Still-Takes h = weaken-Takes W.view Never (λ a w known. known.0) h

  module _ (l : Location) where
    -- The copy that the hub holds after the apply.
    applied-published :
        (clock : Time) (os : GoMap) (held : Option ServingLocation) (o : Option Copy)
        → IsReading l.meta.name held o
        → applied os o (desired_copy l (keep_published_at clock held l (trimmed_city_code l)))
          ≡ published_copy clock os o l
    unfolding desired_copy has_override keep_published_at published_content_equal
    applied-published clock os none o known = rw known refl
    applied-published clock os (some p) o known = rw known.0 refl

    abbrev n : String
    n = l.meta.name

    -- The view once both writes are done.
    abbrev Written : Time → View → View
    Written clock v = after_publish r.config.location_scoped_resources clock l v

    -- The view once the copy is written.
    abbrev started : Copy → View → View
    started c v = record v {
      copies = put n (some c) v.copies;
      others = λ k.
          if n == k
          then still_others (others_in (v.copies n) (v.others n)) l.spec.topology
          else v.others k;
    }

    Written-copies :
        (clock : Time) (v : View)
        → (Written clock v).copies n ≡ some (published_copy clock (v.others n) (v.copies n) l)
    Written-copies clock v = rw (eq_refl n) refl

    reading-named :
        (held : Option ServingLocation) (o : Option Copy) (p : ServingLocation)
        → IsReading n held o
        → held ≡ some p
        → p.meta.name ≡ n
    reading-named none o p known e = cc
    reading-named (some q) o p known e = ground (arith, known.1, e)

    write_copy-Takes :
        (clock : Time) (held : Option ServingLocation) (v : View)
        → IsReading n held (v.copies n)
        → Takes W.view
            (λ _ w. w ≡ Written clock v)
            (λ _. ⊥)
            v
            (write_copy V r l held (keep_published_at clock held l (trimmed_city_code l)))
    unfolding write_copy apply_propagation_policy propagation_policy desired_copy
    write_copy-Takes clock held v known =
        let time = keep_published_at clock held l (trimmed_city_code l) in
        let start = started (published_copy clock (v.others n) (v.copies n) l) v in
        bind-Takes W.view Never (λ _ w. w ≡ Written clock v)
          (bind-Takes W.view Never (λ _ w. w ≡ Written clock v)
            (bind-Takes W.view Never (λ _ w. w ≡ Written clock v)
              (bind-Takes W.view Never (λ _ w. w ≡ Written clock v)
                (bind-Takes W.view Never (λ _ w. w ≡ Written clock v)
                  (bind-Takes W.view Never (λ _ w. w ≡ start)
                    (done-Takes W.view Never _ tt _ _ _ (W.apply _ (desired_copy l time) v) (
                      ap (λ c. started c v)
                        (applied-published clock (v.others n) held (v.copies n) known)))
                    λ _ w e.
                      rw e (done-Takes W.view Never _ tt _ _ _ (W.apply_policy _ _ start) refl))
                  λ _ w e. rw e (
                    Still-Takes (
                      clear_blocked-Still (Written clock v) n held
                        (published_copy clock (v.others n) (v.copies n) l) (Written-copies clock v)
                        (λ p q. reading-named held (v.copies n) p known q))))
                λ _ w e. rw e (note-Takes W.view Never _ refl))
              λ _ w e. rw e (note-Takes W.view Never _ refl))
            λ _ w e. rw e (Still-Takes (refresh_matched_clusters-Still V W r (Written clock v) n)))
          λ _ w e. rw e (pure-Takes W.view Never _ refl)

    abbrev IsPublished : View → {A : Type 0} → A → View → Type 0
    IsPublished v a w =
        (clock : Time) × (w ≡ publishing r.config.location_scoped_resources clock l v)

    publishing-written :
        (clock : Time) (v : View)
        → (trimmed_city_code l == "") ≡ false
        → is_foreign_copy (v.copies n) ≡ false
        → publishing r.config.location_scoped_resources clock l v ≡ Written clock v
    publishing-written clock v coded free = rw (coded, free) refl

    publish_owned-Takes :
        (held : Option ServingLocation) (v : View)
        → IsReading n held (v.copies n)
        → (trimmed_city_code l == "") ≡ false
        → is_foreign_copy (v.copies n) ≡ false
        → Takes W.view (IsPublished v) Never v (publish_owned V r l held (trimmed_city_code l))
    unfolding publish_owned
    publish_owned-Takes held v known coded free =
        still-bind-Takes W.view Never (λ _. Unit {0}) (report_foreign_managers-Still V W r v l held)
          λ _ _.
            read-bind-Takes W.view Never (λ _. Unit {0}) _ _ _ (W.clock v)
              λ clock _.
                weaken-Takes W.view Never
                  (λ a w e. (clock, e ∙ sym (publishing-written clock v coded free)))
                  (write_copy-Takes clock held v known)

    foreign-read :
        (held : Option ServingLocation) (o : Option Copy)
        → IsReading n held o
        → is_foreign_copy o ≡ is_unowned held
    unfolding is_unowned
    foreign-read none o known = rw known refl
    foreign-read (some p) o known = rw known.0 refl

    pub publish-Takes : (v : View) → Takes W.view (IsPublished v) Never v (publish V r l)
    unfolding publish publish_with_city
    publish-Takes v =
        if-Takes W.view Never (trimmed_city_code l == "") _ _
          (λ blank.
            weaken-Takes W.view Never (λ a w e. (zero_time, rw (e.0, blank) refl))
              (refuse_without_city-Still V W r v l))
          (λ coded.
            bind-Takes W.view Never (λ _ w. w ≡ v) (note-Takes W.view Never _ refl)
              λ _ w e. rw e (
                still-bind-Takes W.view Never (λ o. IsReading n o (v.copies n))
                  (read_published-Takes n v)
                  λ held known.
                    if-Takes W.view Never (is_unowned held) _ _
                      (λ foreign.
                        weaken-Takes W.view Never
                          (λ a u q. (
                            zero_time,
                            rw (q.0, coded, foreign-read held (v.copies n) known, foreign) refl,
                          ))
                          (refuse_unlabelled-Still V W r v l))
                      (λ free.
                        publish_owned-Takes held v known coded
                          (foreign-read held (v.copies n) known ∙ free))))
