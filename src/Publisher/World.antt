-- ===== src/Publisher/World.antt =====
-- The two control planes as the publisher's clients show them, and what the clients do where every call
-- succeeds and nothing else changes the control planes during a run.
pub mod Spec
pub mod Still
pub mod Publishing
pub mod Removing
pub mod Refines
pub mod Settles
pub mod Sound
pub mod Orphan
use locations.Prelude.{
  String, Bool, true, Option, none, some, List, [], ◌∷◌, false, not, is_empty, ◌≡◌, ◌≢◌, ◌==◌, ◌&&◌,
  if◌then◌else◌,
}
use locations.Prelude.Effect.{Except, ok, err}
use locations.Prelude.Steps.{Answers}
use locations.Api.{Location, ServingLocation, ServingLocationSpec, ObjectMeta, is_zero_time}
use locations.Prelude.GoMap.{GoMap, contains, index}
use locations.Publisher.Client.{Env, Cluster, PropagationPolicy}
use locations.Publisher.Ownership.{
  owns_object, location_publisher_managed_by_label, location_publisher_managed_by_value,
}
use locations.Publisher.Removal.{has_override}

-- What matters of a copy on the hub: its content, whether the publisher owns it, whether it carries
-- the removal override, whether it has finalizers, and whether its deletion was asked for.
pub record Copy : Type 0 where
  pub spec : ServingLocationSpec
  pub owned : Bool
  pub override : Bool
  pub finalized : Bool
  pub deleting : Bool

abbrev pub content : ServingLocation → Copy
content p = record {
  spec = p.spec;
  owned = owns_object p.meta;
  override = has_override p;
  finalized = not (is_empty p.meta.finalizers);
  deleting = not (is_zero_time p.meta.deletion_timestamp);
}

pub record View : Type 0 where
  pub sources : String → Option Location
  -- what a list of the source's Locations returns
  pub listing : List Location
  pub clusters : List Cluster
  pub copies : String → Option Copy
  pub policies : String → Option PropagationPolicy
  -- the entries of a copy's topology that field managers other than the publisher own
  pub others : String → GoMap
  -- whether a policy has finalizers
  pub pinned : String → Bool

abbrev pub put : {A : Type 0} → String → Option A → (String → Option A) → String → Option A
put n a f k = if n == k then a else f k

abbrev pub with_copy : String → Option Copy → View → View
with_copy n c v = record v { copies = put n c v.copies }

abbrev pub with_policy : String → Option PropagationPolicy → View → View
with_policy n p v = record v { policies = put n p v.policies }

-- The topology is a granular map. A server-side apply sets the entries that it names, takes away those
-- that only its own manager has set, and keeps those of others under other keys.
abbrev pub merged : GoMap → GoMap → GoMap
merged [] m = m
merged ((k, v) ∷ os) m = let rest = merged os m in if contains k m then rest else (k, v) ∷ rest

-- A forced apply takes an entry away from the others who hold it with another value.
abbrev pub still_others : GoMap → GoMap → GoMap
still_others [] m = []
still_others ((k, v) ∷ os) m =
    let rest = still_others os m in
    if contains k m && not (index k m == v) then rest else (k, v) ∷ rest

-- Others have entries only in a copy that is there.
abbrev pub others_in : Option Copy → GoMap → GoMap
others_in none os = []
others_in (some c) os = os

-- An apply leaves the annotations and finalizers of others, and what has been asked of the copy.
abbrev pub applied : GoMap → Option Copy → ServingLocation → Copy
applied os none p = content p
applied os (some c) p = record c {
  spec = record (p.spec) { topology = merged os p.spec.topology };
  owned = owns_object p.meta;
}

abbrev pub with_applied : ServingLocation → View → View
with_applied p v =
    let n = p.meta.name in
    record v {
      copies = put n (some (applied (v.others n) (v.copies n) p)) v.copies;
      others = λ k.
          if n == k
          then still_others (others_in (v.copies n) (v.others n)) p.spec.topology
          else v.others k;
    }

-- A delete removes an object at once only if it has no finalizers.
abbrev pub remaining : Option Copy → Option Copy
remaining none = none
remaining (some c) = if c.finalized then some (record c { deleting = true }) else none

abbrev pub remaining_policy : String → View → Option PropagationPolicy
remaining_policy n v = if v.pinned n then v.policies n else none

abbrev pub location_meta : Location → ObjectMeta
location_meta l = l.meta

abbrev pub copy_meta : ServingLocation → ObjectMeta
copy_meta p = p.meta

module _ (V : Env) where
  -- The answer of a read: the object, or that there is none.
  abbrev pub IsLookup :
      {A B : Type 0} → (A → B) → (A → ObjectMeta) → String → Except V.Failure A → Option B → Type 0
  IsLookup f meta n (ok a) o = (o ≡ some (f a)) × ((meta a).name ≡ n)
  IsLookup f meta n (err e) o = (o ≡ none) × (V.is_not_found e ≡ true)

  -- A delete was done, or there was nothing to delete.
  abbrev pub IsDone : Except V.Failure (Unit {0}) → Type 0
  IsDone (ok _) = Unit
  IsDone (err e) = V.is_not_found e ≡ true

  -- What the clients are documented to do. A list by the publisher's label has every owned copy, and a
  -- merge patch that changes nothing of what the view holds leaves the view.
  pub record World : Type 0 where
    pub view : V.State → View
    pub get_source :
        (n : String) (v : View)
        → Answers view
            (λ a w. (w ≡ v) × IsLookup (λ l. l) location_meta n a (v.sources n))
            v
            (V.source_get n)
    pub list_sources :
        (v : View) → Answers view (λ a w. (w ≡ v) × (a ≡ ok v.listing)) v V.source_list
    pub sync_source : (v : View) → Answers view (λ b w. (w ≡ v) × (b ≡ true)) v V.source_synced
    pub sync_hub : (v : View) → Answers view (λ b w. (w ≡ v) × (b ≡ true)) v V.hub_synced
    pub get_copy :
        (n : String) (v : View)
        → Answers view
            (λ a w. (w ≡ v) × IsLookup content copy_meta n a (v.copies n))
            v
            (V.hub_get n)
    pub list_copies :
        (v : View)
        → Answers view
            (λ a w.
              (w ≡ v)
              × ((ps : List ServingLocation) × (a ≡ ok ps)
                  × ((n : String) (c : Copy) → v.copies n ≡ some c → c.owned ≡ true → ps ≢ [])))
            v
            (V.hub_list location_publisher_managed_by_label location_publisher_managed_by_value)
    pub list_clusters :
        (v : View) → Answers view (λ a w. (w ≡ v) × (a ≡ ok v.clusters)) v V.hub_clusters
    pub apply :
        (manager : String) (p : ServingLocation) (v : View)
        → Answers view (λ a w. (w ≡ with_applied p v) × (a ≡ ok tt)) v (V.hub_apply manager p)
    pub apply_policy :
        (manager : String) (p : PropagationPolicy) (v : View)
        → Answers view
            (λ a w. (w ≡ with_policy p.name (some p) v) × (a ≡ ok tt))
            v
            (V.hub_apply_policy manager p)
    pub patch :
        (old new : ServingLocation) (v : View) (c : Copy)
        → v.copies old.meta.name ≡ some c
        → content old ≡ content new
        → Answers view (λ a w. (w ≡ v) × (a ≡ ok tt)) v (V.hub_patch old new)
    pub delete :
        (p : ServingLocation) (v : View) (c : Copy)
        → v.copies p.meta.name ≡ some c
        → Answers view
            (λ a w. (w ≡ with_copy p.meta.name (remaining (some c)) v) × IsDone a)
            v
            (V.hub_delete p)
    pub delete_policy :
        (n : String) (v : View)
        → Answers view
            (λ a w. (w ≡ with_policy n (remaining_policy n v) v) × IsDone a)
            v
            (V.hub_delete_policy n)
    pub clock : (v : View) → Answers view (λ t w. (w ≡ v) × Unit {0}) v V.now
