-- ===== src/Publisher/Writing.antt =====
-- What has to have happened before the publisher writes a copy or a policy to the hub.
pub mod Silent
pub mod Copies
pub mod Justified
use locations.Prelude.{String, Bool, true, Option, none, some, List, [], ◌∷◌, ◌≡◌, ◌≢◌}
use locations.Prelude.Effect.{Except, ok, err}
use locations.Prelude.GoMap.{GoMap}
use locations.Prelude.Trace.{Some}
use locations.Api.{Time, Location, ServingLocation}
use locations.Publisher.Client.{Env, Call, Reconciler}
use locations.Publisher.Ownership.{owns_object}
use locations.Publisher.Policy.{propagation_policy}
use locations.Publisher.Hub.{with_annotations}
use locations.Publisher.Publish.{trimmed_city_code, desired_copy, keep_published_at}

module _ (V : Env) (r : Reconciler) where
  abbrev pub Calls : Type 0
  Calls = List (Call V.Failure)

  -- The source returned this Location under this name.
  abbrev pub IsFound : String → Location → Call V.Failure → Type 0
  IsFound name l c = c ≡ Call.got_location name (ok l)

  -- The hub returned this copy under this name.
  abbrev pub IsHeld : String → ServingLocation → Call V.Failure → Type 0
  IsHeld name p c = c ≡ Call.got_published name (ok p)

  -- The hub has no copy under this name, or one that the publisher owns.
  abbrev pub IsFree : String → Option ServingLocation → Calls → Type 0
  IsFree name none now =
      Some
        (λ c. (e : V.Failure) × (c ≡ Call.got_published name (err e)) × (V.is_not_found e ≡ true))
        now
  IsFree name (some p) now = (owns_object p.meta ≡ true) × Some (IsHeld name p) now

  -- The time of publication is that of the copy on the hub, or the clock's.
  abbrev pub IsTimed : Location → Option ServingLocation → Time → Calls → Type 0
  IsTimed l held time now =
      (clock : Time) × (time ≡ keep_published_at clock held l (trimmed_city_code l))
      × Some (λ c. c ≡ Call.read_clock clock) now

  -- The copy of this Location was applied, and the hub accepted it.
  abbrev pub IsApplied : Location → Call V.Failure → Type 0
  IsApplied l c = (time : Time) × (c ≡ Call.applied_serving (desired_copy l time) (ok tt))

  -- What a call needs before it. Only the applies and the patches need anything.
  abbrev pub Justification : String → Calls → Call V.Failure → Type 0
  Justification name now (Call.applied_serving desired answer) =
      (l : Location) × (held : Option ServingLocation) × (time : Time) × (desired
        ≡ desired_copy l time)
      × (trimmed_city_code l ≢ "")
      × Some (IsFound name l) now
      × IsFree l.meta.name held now
      × IsTimed l held time now
  Justification name now (Call.applied_policy policy answer) =
      (l : Location) × (policy ≡ propagation_policy r.config.location_scoped_resources l.meta.name)
      × Some (IsFound name l) now
      × Some (IsApplied l) now
  Justification name now (Call.patched_serving old new answer) =
      (owns_object old.meta ≡ true)
      × ((held_as : String) × Some (IsHeld held_as old) now)
      × ((annotations : GoMap) × (new ≡ with_annotations annotations old))
  Justification name now _ = Unit

  -- A call that writes neither a copy nor a policy.
  abbrev pub IsSilent : Call V.Failure → Type 0
  IsSilent (Call.applied_serving p answer) = ⊥
  IsSilent (Call.applied_policy p answer) = ⊥
  IsSilent (Call.patched_serving old new answer) = ⊥
  IsSilent _ = Unit

  pub IsSilent-Free :
      (name : String) (c : Call V.Failure) → IsSilent c → (now : Calls) → Justification name now c
  IsSilent-Free name (Call.applied_serving p answer) h now = absurd h
  IsSilent-Free name (Call.applied_policy p answer) h now = absurd h
  IsSilent-Free name (Call.patched_serving old new answer) h now = absurd h
  IsSilent-Free name _ h now = tt
