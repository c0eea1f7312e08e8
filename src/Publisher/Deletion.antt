-- ===== src/Publisher/Deletion.antt =====
-- What has to have happened before the publisher deletes anything on the hub.
pub mod Harmless
pub mod Prune
pub mod Justified
use locations.Prelude.{String, Bool, true, List, [], ◌∷◌, ◌≡◌, ◌⊎◌, All}
use locations.Prelude.Effect.{Except, ok, err}
use locations.Prelude.Trace.{Some}
use locations.Api.{Location, ServingLocation}
use locations.Publisher.Client.{Env, Call, Cluster}
use locations.Publisher.Ownership.{owns_object}
use locations.Publisher.Policy.{location_propagation_policy_name}
use locations.Publisher.Guard.Allows.{ServesElsewhere}
use locations.Publisher.Removal.{has_override}

module _ (V : Env) where
  abbrev pub Calls : Type 0
  Calls = List (Call V.Failure)

  -- The source answered that it has no location of this name.
  abbrev pub IsAbsent : String → Call V.Failure → Type 0
  IsAbsent name c =
      (e : V.Failure) × (c ≡ Call.got_location name (err e)) × (V.is_not_found e ≡ true)

  -- The hub answered that it holds this copy under this name.
  abbrev pub IsHeld : String → ServingLocation → Call V.Failure → Type 0
  IsHeld name p c = c ≡ Call.got_published name (ok p)

  -- The caches were in step, and the source had a location or the hub no copy.
  abbrev pub HasSource : Call V.Failure → Type 0
  HasSource c = (l : Location) × (ls : List Location) × (c ≡ Call.listed_locations (ok (l ∷ ls)))

  abbrev pub HubIsEmpty : Call V.Failure → Type 0
  HubIsEmpty c = c ≡ Call.listed_published (ok [])

  abbrev pub IsSafeToPrune : Calls → Type 0
  IsSafeToPrune now =
      Some (λ c. c ≡ Call.source_sync true) now
      × Some (λ c. c ≡ Call.hub_sync true) now
      × (Some HasSource now ⊎ Some HubIsEmpty now)

  -- The hub's clusters were listed, and none of them may still serve the location.
  abbrev pub IsVacated : String → Call V.Failure → Type 0
  IsVacated name c =
      (items : List Cluster) × (c ≡ Call.listed_clusters (ok items))
      × All (ServesElsewhere name) items

  -- A copy was deleted, whatever the hub answered.
  abbrev pub IsDeletion : Call V.Failure → Type 0
  IsDeletion c =
      (p : ServingLocation) × (a : Except V.Failure (Unit {0})) × (c ≡ Call.deleted_serving p a)

  -- What a call needs before it. Only the deletes need anything.
  abbrev pub Justification : String → Calls → Call V.Failure → Type 0
  Justification name now (Call.deleted_serving p answer) =
      (owns_object p.meta ≡ true)
      × Some (IsAbsent name) now
      × Some (IsHeld name p) now
      × IsSafeToPrune now
      × ((has_override p ≡ true) ⊎ Some (IsVacated name) now)
  Justification name now (Call.deleted_policy policy answer) =
      (policy ≡ location_propagation_policy_name name) × Some IsDeletion now
  Justification name now _ = Unit

  -- A call that deletes nothing on the hub.
  abbrev pub IsNotDelete : Call V.Failure → Type 0
  IsNotDelete (Call.deleted_serving p answer) = ⊥
  IsNotDelete (Call.deleted_policy policy answer) = ⊥
  IsNotDelete _ = Unit

  pub IsNotDelete-Free :
      (name : String) (c : Call V.Failure)
      → IsNotDelete c
      → (now : Calls) → Justification name now c
  IsNotDelete-Free name (Call.deleted_serving p answer) h now = absurd h
  IsNotDelete-Free name (Call.deleted_policy policy answer) h now = absurd h
  IsNotDelete-Free name _ h now = tt
