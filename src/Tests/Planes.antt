-- ===== src/Tests/Planes.antt =====
-- Two control planes as functions from names, whose clients do as documented.
use mathlib.Core.Path.{subst}
use locations.Prelude.{
  sym, ap, ◌∙◌, String, Bool, true, false, Option, none, some, List, [], ◌∷◌, ◌≡◌, ◌≢◌, refl, ◌==◌,
  if◌then◌else◌,
}
use locations.Prelude.Int.{pos}
use locations.Prelude.Effect.{Except, ok, err}
use locations.Prelude.Steps.{Leaves}
use locations.Prelude.GoMap.{GoMap}
use locations.Prelude.Text.Trim.{trim_space}
use locations.Api.{Time, Location, LocationSpec, ServingLocation, ServingLocationSpec}
use locations.Publisher.Client.{Env, Cluster, PropagationPolicy}
use locations.Publisher.Ownership.{managed_labels, location_removal_override_annotation}
use locations.Publisher.Policy.{location_propagation_policy_name, propagation_policy}
use locations.Publisher.Removal.{has_override}
use locations.Publisher.Reconcile.{reconcile}
use locations.Publisher.World.{
  Copy, View, World, content, applied, put, still_others, others_in, remaining, IsLookup, copy_meta,
  location_meta,
}
use locations.Publisher.World.Settles.{IsTidy, view_after, reconcile-settles}
use locations.Publisher.World.Refines.{IsNext, reconcile-refines}
use locations.Publisher.World.Sound.{Sound}
use locations.Publisher.World.Orphan.{reconcile-leaves_orphan}
use locations.Tests.Memory.{Failure, not_found, named, place, copy, claiming, publisher}

record Planes : Type 0 where
  specs : String → Option LocationSpec
  listing : List Location
  clusters : List Cluster
  copies : String → Option Copy
  policies : String → Option PropagationPolicy
  others : String → GoMap
  pinned : String → Bool

abbrev location_named : String → LocationSpec → Location
location_named n spec = record {
  meta = named n [] [];
  spec = spec;
  status = record { conditions = [] };
}

abbrev labels_for : Bool → GoMap
labels_for true = managed_labels
labels_for false = []

abbrev annotations_for : Bool → GoMap
annotations_for true = (location_removal_override_annotation, "true") ∷ []
annotations_for false = []

abbrev finalizers_for : Bool → List String
finalizers_for true = "foreground" ∷ []
finalizers_for false = []

abbrev deletion_for : Bool → Option Time
deletion_for true = some (pos 150)
deletion_for false = none

-- An object with this name and this content.
abbrev object_of : String → Copy → ServingLocation
object_of n c = record {
  meta = record (named n (labels_for c.owned) (annotations_for c.override)) {
    finalizers = finalizers_for c.finalized;
    deletion_timestamp = deletion_for c.deleting;
  };
  spec = c.spec;
}

abbrev answer_of : {A B : Type 0} → (A → B) → Option A → Except Failure B
answer_of f none = err not_found
answer_of f (some a) = ok (f a)

abbrev source_of : Planes → String → Option Location
source_of s n = elim (s.specs n) [ none ↦ none | some spec ↦ some (location_named n spec) ]

abbrev planes : Env
planes = record {
  State = Planes;
  Failure = Failure;
  is_not_found = λ e. true;
  source_get = λ n s. (answer_of (λ l. l) (source_of s n), s);
  source_list = λ s. (ok s.listing, s);
  source_synced = λ s. (true, s);
  hub_synced = λ s. (true, s);
  hub_get = λ n s. (answer_of (object_of n) (s.copies n), s);
  hub_list = λ key value s. (ok (copy "any" "" [] ∷ []), s);
  hub_clusters = λ s. (ok s.clusters, s);
  hub_apply = λ manager p s. (
    ok tt,
    record s {
      copies =
          put p.meta.name (some (applied (s.others p.meta.name) (s.copies p.meta.name) p)) s.copies;
      others = λ k.
          if p.meta.name == k
          then still_others (others_in (s.copies p.meta.name) (s.others p.meta.name))
              p.spec.topology
          else s.others k;
    },
  );
  hub_apply_policy = λ manager p s. (ok tt, record s { policies = put p.name (some p) s.policies });
  hub_patch = λ old new s. (ok tt, s);
  hub_delete = λ p s.
      (ok tt, record s { copies = put p.meta.name (remaining (s.copies p.meta.name)) s.copies });
  hub_delete_policy = λ n s.
      (ok tt, record s { policies = put n (if s.pinned n then s.policies n else none) s.policies });
  now = λ s. (pos 200, s);
  unmarshal = λ raw. none;
  is_print = λ c. false;
}

abbrev view_of : Planes → View
view_of s = record {
  sources = source_of s;
  listing = s.listing;
  clusters = s.clusters;
  copies = s.copies;
  policies = s.policies;
  others = s.others;
  pinned = s.pinned;
}

abbrev copy_with : ServingLocationSpec → Bool → Bool → Bool → Bool → Copy
copy_with spec owned override finalized deleting = record {
  spec = spec;
  owned = owned;
  override = override;
  finalized = finalized;
  deleting = deleting;
}

object_of-content : (n : String) (c : Copy) → content (object_of n c) ≡ c
unfolding has_override
object_of-content n c = by_flags c.spec c.owned c.override c.finalized c.deleting
  where
    by_flags :
        (spec : ServingLocationSpec) (owned override finalized deleting : Bool)
        → content (object_of n (copy_with spec owned override finalized deleting))
          ≡ copy_with spec owned override finalized deleting
    by_flags spec true true true true = refl
    by_flags spec true true true false = refl
    by_flags spec true true false true = refl
    by_flags spec true true false false = refl
    by_flags spec true false true true = refl
    by_flags spec true false true false = refl
    by_flags spec true false false true = refl
    by_flags spec true false false false = refl
    by_flags spec false true true true = refl
    by_flags spec false true true false = refl
    by_flags spec false true false true = refl
    by_flags spec false true false false = refl
    by_flags spec false false true true = refl
    by_flags spec false false true false = refl
    by_flags spec false false false true = refl
    by_flags spec false false false false = refl

source-IsLookup :
    (s : Planes) (n : String)
    → IsLookup planes (λ l. l) location_meta n (answer_of (λ l. l) (source_of s n)) (source_of s n)
source-IsLookup s n = by_spec (s.specs n)
  where
    by_spec :
        (o : Option LocationSpec)
        → IsLookup planes
            (λ l. l)
            location_meta
            n
            (answer_of (λ l. l) (elim o [ none ↦ none | some spec ↦ some (location_named n spec) ]))
            (elim o [ none ↦ none | some spec ↦ some (location_named n spec) ])
    by_spec none = (refl, refl)
    by_spec (some spec) = (refl, refl)

copy-IsLookup :
    (n : String) (o : Option Copy)
    → IsLookup planes content copy_meta n (answer_of (object_of n) o) o
copy-IsLookup n none = (refl, refl)
copy-IsLookup n (some c) = (rw (object_of-content n c) refl, refl)

one_copy : copy "any" "" [] ∷ [] ≢ []
one_copy e = cc

abbrev world : World planes
world = record {
  view = view_of;
  get_source = λ n v s e. rw (sym e) (refl, source-IsLookup s n);
  list_sources = λ v s e. rw (sym e) (refl, refl);
  sync_source = λ v s e. (e, refl);
  sync_hub = λ v s e. (e, refl);
  get_copy = λ n v s e. rw (sym e) (refl, copy-IsLookup n (s.copies n));
  list_copies = λ v s e. (e, (copy "any" "" [] ∷ [], refl, λ n c held owned. one_copy));
  list_clusters = λ v s e. rw (sym e) (refl, refl);
  apply = λ manager p v s e. rw (sym e) (refl, refl);
  apply_policy = λ manager p v s e. rw (sym e) (refl, refl);
  patch = λ old new v c there same s e. (e, refl);
  delete =
      λ p v c there s e. (rw (sym e, ap (λ (x : View). x.copies p.meta.name) e ∙ there) (refl), tt);
  delete_policy = λ n v s e. rw (sym e) (refl, tt);
  clock = λ v s e. (e, tt);
}

-- The source has "fra"; the hub holds "iad", whose location is gone.
abbrev start : Planes
start = record {
  specs = λ n. if n == "fra" then some (place "fra" "FRA").spec else none;
  listing = place "fra" "FRA" ∷ [];
  clusters = claiming "c1" "fra" ∷ [];
  copies = λ n.
      if n == "iad"
      then some (record {
        spec = (copy "iad" "IAD" []).spec;
        owned = true;
        override = false;
        finalized = false;
        deleting = false;
      })
      else none;
  policies = λ n.
      if n == location_propagation_policy_name "iad"
      then some (propagation_policy [] "iad")
      else none;
  others = λ n. [];
  pinned = λ n. false;
}

reconcile-refines_example :
    Leaves view_of
      (IsNext planes world publisher "fra" (view_of start))
      (λ _. ⊥)
      (reconcile planes publisher "fra" start)
reconcile-refines_example = reconcile-refines planes world publisher "fra" start

fra-IsTidy :
    (l : Location)
    → (view_of start).sources "fra" ≡ some l
    → IsTidy l × ((view_of start).others l.meta.name ≡ [])
unfolding trim_space
fra-IsTidy l e = (subst IsTidy (some_eq e) ((refl, tt), refl), refl)
  where
    some_eq :
        some (location_named "fra" (place "fra" "FRA").spec) ≡ some l
        → location_named "fra" (place "fra" "FRA").spec ≡ l
    some_eq q = cc

reconcile-settles_example :
    view_after planes world publisher "fra" (reconcile planes publisher "fra" start).1
    ≡ view_after planes world publisher "fra" start
reconcile-settles_example = reconcile-settles planes world publisher "fra" start fra-IsTidy

-- A hub that nothing has been published to.
abbrev fresh : Planes
fresh = record start { copies = λ n. none; policies = λ n. none }

-- The publisher has run for both names.
abbrev served : Planes
served = (reconcile planes publisher "iad" (reconcile planes publisher "fra" fresh).1).1

-- The removal deleted the copy, and then the delete of the policy failed.
abbrev orphaned : Planes
orphaned = record start { copies = λ n. none }

reconcile-leaves_orphan_example :
    view_after planes world publisher "iad" orphaned ≡ view_of orphaned
reconcile-leaves_orphan_example =
    reconcile-leaves_orphan planes world publisher "iad" orphaned refl refl
