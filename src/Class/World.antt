-- ===== src/Class/World.antt =====
-- The control plane as the class controller's client shows it, and what a run is meant to do to it.
pub mod Refines
pub mod Kept
use locations.Prelude.{String, Bool, true, false, not, Option, none, some, List, [], ◌∷◌, ◌≡◌}
use locations.Prelude.{◌==◌, ◌&&◌, is_empty, any, select, if◌then◌else◌}
use locations.Prelude.Effect.{Except, ok, err}
use locations.Prelude.GoMap.{GoMap}
use locations.Prelude.Steps.{Answers}
use locations.Api.{Location, LocationClass, is_zero_time}
use locations.Class.Index.{location_class_finalizer, location_class_ref_index, class_names}
use locations.Class.Client.{Env}
use locations.Class.Reconcile.{with_annotations}

-- What matters of a class: whether it holds the finalizer, whether its deletion was asked for, and
-- whether it has finalizers of others.
pub record Status : Type 0 where
  pub held : Bool
  pub deleting : Bool
  pub pinned : Bool

pub record View : Type 0 where
  pub classes : String → Option Status
  pub locations : List Location

-- The Locations that the index files under a class.
abbrev pub naming : String → List Location → List Location
naming n ls = select (λ l. any (λ m. m == n) (class_names l)) ls

abbrev pub put_class : String → Option Status → View → View
put_class n c v = record v { classes = λ k. if n == k then c else v.classes k }

-- A class whose deletion was asked for is gone once no finalizer is left.
abbrev pub surviving : Status → Option Status
surviving c = if c.deleting && not c.held && not c.pinned then none else some c

-- What a patch leaves of the class: taking off the last finalizer completes a deletion.
abbrev pub after_patch : Status → Status → Option Status
after_patch old new = if old.held && not new.held then surviving new else some new

-- What the API server lets a patch do to the finalizer: none is added once deletion is asked for.
abbrev pub MayPatch : Status → Status → Type 0
MayPatch old new =
    (new.deleting ≡ old.deleting)
    × (new.pinned ≡ old.pinned)
    × (old.deleting ≡ true → new.held ≡ true → old.held ≡ true)

module _ (V : Env) where
  abbrev pub status : LocationClass → Status
  status c = record {
    held = V.contains_finalizer c location_class_finalizer;
    deleting = not (is_zero_time c.meta.deletion_timestamp);
    pinned = any (λ f. not (f == location_class_finalizer)) c.meta.finalizers;
  }

  abbrev pub IsLookup : String → Except V.Failure LocationClass → Option Status → Type 0
  IsLookup n (ok c) o = (o ≡ some (status c)) × (c.meta.name ≡ n)
  IsLookup n (err e) o = (o ≡ none) × (V.is_not_found e ≡ true)

  -- What the client and the functions on finalizers are documented to do.
  pub record World : Type 0 where
    pub view : V.State → View
    pub get :
        (n : String) (v : View)
        → Answers view (λ a w. (w ≡ v) × IsLookup n a (v.classes n)) v (V.get n)
    pub list_matching :
        (n : String) (v : View)
        → Answers view
            (λ a w. (w ≡ v) × (a ≡ ok (naming n v.locations)))
            v
            (V.list_matching location_class_ref_index n)
    -- a patch from the state that the class is in
    pub patch :
        (old new : LocationClass) (v : View)
        → v.classes old.meta.name ≡ some (status old)
        → MayPatch (status old) (status new)
        → Answers view
            (λ a w.
              (w ≡ put_class old.meta.name (after_patch (status old) (status new)) v) × (a ≡ ok tt))
            v
            (V.patch old new)
    pub status-add :
        (c : LocationClass)
        → status (V.add_finalizer c location_class_finalizer) ≡ record (status c) { held = true }
    pub status-remove :
        (c : LocationClass)
        → status (V.remove_finalizer c location_class_finalizer)
          ≡ record (status c) { held = false }
    pub status-annotate : (c : LocationClass) (m : GoMap) → status (with_annotations m c) ≡ status c

-- A class that is not being deleted holds the finalizer; one that is lets go of it once unnamed, and
-- is gone then if that was the last finalizer.
abbrev pub settled : Status → Bool → Option Status
settled c unnamed =
    if not c.deleting
    then some (record c { held = true })
    else if unnamed && c.held
    then surviving (record c { held = false })
    else some c

abbrev pub settle : String → Option Status → View → View
settle n none v = v
settle n (some c) v = put_class n (settled c (is_empty (naming n v.locations))) v

-- One run for a name.
unfoldable pub next : String → View → View
next n v = settle n (v.classes n) v
