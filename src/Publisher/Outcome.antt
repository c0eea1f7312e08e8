-- ===== src/Publisher/Outcome.antt =====
-- What a run of the publisher has done when it ends.
pub mod Published
pub mod Removed
pub mod Complete
use locations.Prelude.{String, Bool, true, false, List, [], ◌∷◌, ◌≡◌, ◌≢◌, ◌⊎◌, inl, inr, All}
use locations.Prelude.Effect.{Except, ok, err}
use locations.Prelude.Trace.{Some}
use locations.Api.{Location, ServingLocation}
use locations.Publisher.Client.{Env, Call, Reconciler, Result, Cluster}
use locations.Publisher.Ownership.{owns_object}
use locations.Publisher.Policy.{propagation_policy, location_propagation_policy_name}
use locations.Publisher.Guard.{removal_decision}
use locations.Publisher.Publish.{trimmed_city_code}
use locations.Publisher.Removal.{blocked_requeue, has_override}
use locations.Publisher.Deletion.{IsNotDelete}
use locations.Publisher.Writing.{IsFound, IsHeld, IsApplied}

module _ (V : Env) (r : Reconciler) where
  abbrev pub Calls : Type 0
  Calls = List (Call V.Failure)

  -- A client's call failed in a way that ends a run.
  abbrev pub HasFailed : Call V.Failure → Type 0
  HasFailed (Call.got_location name (err e)) = V.is_not_found e ≡ false
  HasFailed (Call.got_published name (err e)) = V.is_not_found e ≡ false
  HasFailed (Call.applied_serving p (err e)) = Unit
  HasFailed (Call.applied_policy p (err e)) = Unit
  HasFailed (Call.patched_serving old new (err e)) = Unit
  HasFailed (Call.listed_clusters (err e)) = Unit
  HasFailed (Call.deleted_serving p (err e)) = V.is_not_found e ≡ false
  HasFailed (Call.deleted_policy p (err e)) = V.is_not_found e ≡ false
  HasFailed _ = ⊥

  -- An answer that bars every removal: a cache out of step, or no source location to be seen.
  abbrev pub IsBar : Call V.Failure → Type 0
  IsBar (Call.source_sync b) = b ≡ false
  IsBar (Call.hub_sync b) = b ≡ false
  IsBar (Call.listed_locations (err e)) = Unit
  IsBar (Call.listed_locations (ok [])) = Unit
  IsBar _ = ⊥

  -- The clusters were listed, and the guard refuses.
  abbrev pub IsRefusal : String → Call V.Failure → Type 0
  IsRefusal name c =
      (items : List Cluster) × (c ≡ Call.listed_clusters (ok items))
      × ((removal_decision name items).allowed ≡ false)

  -- The hub accepted the policy of this Location.
  abbrev pub IsPlaced : Location → Call V.Failure → Type 0
  IsPlaced l c =
      c
      ≡ Call.applied_policy (propagation_policy r.config.location_scoped_resources l.meta.name)
          (ok tt)

  -- The hub answered that it has no copy under this name.
  abbrev pub IsMissing : String → Call V.Failure → Type 0
  IsMissing name c =
      (e : V.Failure) × (c ≡ Call.got_published name (err e)) × (V.is_not_found e ≡ true)

  -- A delete that was done, or had nothing to do.
  abbrev pub IsDone : Except V.Failure (Unit {0}) → Type 0
  IsDone (ok _) = Unit
  IsDone (err e) = V.is_not_found e ≡ true

  abbrev pub IsDeleted : ServingLocation → Call V.Failure → Type 0
  IsDeleted p c = (a : Except V.Failure (Unit {0})) × (c ≡ Call.deleted_serving p a) × IsDone a

  abbrev pub IsUnplaced : String → Call V.Failure → Type 0
  IsUnplaced name c =
      (a : Except V.Failure (Unit {0})) × (c
        ≡ Call.deleted_policy (location_propagation_policy_name name) a)
      × IsDone a

  -- The ways in which a run for a name ends without an error, given its result and its calls.
  pub data Outcome (name : String) (result : Result) (now : Calls) : Type 0 where
    published :
        (l : Location)
        → trimmed_city_code l ≢ ""
        → Some (IsFound V r name l) now
        → Some (IsApplied V r l) now
        → Some (IsPlaced l) now
        → result.requeue_after ≡ r.config.safety_resync_period
        → Outcome name result now
    without_city :
        (l : Location)
        → trimmed_city_code l ≡ ""
        → Some (IsFound V r name l) now
        → Outcome name result now
    not_owned :
        (held_as : String) (p : ServingLocation)
        → owns_object p.meta ≡ false
        → Some (IsHeld V r held_as p) now
        → Outcome name result now
    nothing_held : Some (IsMissing name) now → Outcome name result now
    retained :
        (p : ServingLocation)
        → Some (IsHeld V r name p) now
        → owns_object p.meta ≡ true
        → All (IsNotDelete V) now
        → Some IsBar now ⊎ ((has_override p ≡ false) × Some (IsRefusal name) now)
        → result.requeue_after ≡ blocked_requeue r
        → Outcome name result now
    removed :
        (p : ServingLocation)
        → Some (IsHeld V r name p) now
        → Some (IsDeleted p) now
        → Some (IsUnplaced name) now
        → Outcome name result now

  -- A later call that deletes nothing changes nothing of it.
  pub keep-Outcome :
      (name : String) (result : Result) (c : Call V.Failure) (now : Calls)
      → IsNotDelete V c
      → Outcome name result now
      → Outcome name result (c ∷ now)
  keep-Outcome name result c now quiet (published l coded f a p q) =
      published l coded (inr f) (inr a) (inr p) q
  keep-Outcome name result c now quiet (without_city l blank f) = without_city l blank (inr f)
  keep-Outcome name result c now quiet (not_owned n p foreign h) = not_owned n p foreign (inr h)
  keep-Outcome name result c now quiet (nothing_held h) = nothing_held (inr h)
  keep-Outcome name result c now quiet (retained p h own all (inl b) q) =
      retained p (inr h) own (quiet, all) (inl (inr b)) q
  keep-Outcome name result c now quiet (retained p h own all (inr (o, b)) q) =
      retained p (inr h) own (quiet, all) (inr (o, inr b)) q
  keep-Outcome name result c now quiet (removed p h d u) = removed p (inr h) (inr d) (inr u)
