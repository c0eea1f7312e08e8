-- ===== src/Wiring/Filled.antt =====
-- What a reconciler has when a `SetupWithManager` function hands it to the manager.
use locations.Prelude.{String, false, Option, none, some, List, [], arith, ◌≡◌, ◌≢◌, refl, inl}
use locations.Prelude.{◌||◌}
use locations.Prelude.Effect.{ok}
use locations.Prelude.Trace.{
  Some, Traced, Justified, bind-Traced, request-Traced, Holds-Justified, raise-Traced, if-Traced,
}
use locations.Class.Index.{location_class_ref_index, index_locations_by_class}
use locations.Readiness.Client as Reporting
use locations.Wiring.Client.{Env, Call, M, Reconciler, PublisherReconciler}
use locations.Wiring.Setup.{
  is_nil, or_default, setup_location_class, setup_location_readiness, setup_location_class_accepted,
  setup_location_publisher,
}

-- A controller to set up.
pub data Controller (V : Env) : Type 0 where
  location_class : Reconciler V.ClientOf V.RecorderOf → Controller V
  location_readiness : Reporting.Reconciler → Reconciler V.ClientOf V.RecorderOf → Controller V
  location_class_accepted : Reconciler V.ClientOf V.RecorderOf → Controller V
  location_publisher : PublisherReconciler V.ClusterOf V.RecorderOf → Controller V

module _ (V : Env) where
  abbrev pub setup_with_manager : Controller V → M V (Unit {0})
  setup_with_manager (location_class r) = setup_location_class V r
  setup_with_manager (location_readiness named r) = setup_location_readiness V named r
  setup_with_manager (location_class_accepted r) = setup_location_class_accepted V r
  setup_with_manager (location_publisher r) = setup_location_publisher V r

  abbrev IsGiven : {A : Type 0} → Option A → Type 0
  IsGiven a = is_nil a ≡ false

  -- The index that a list of the Locations of a class needs is there.
  abbrev IsIndexed : Call V → Type 0
  IsIndexed call = call ≡ Call.indexed location_class_ref_index index_locations_by_class (ok tt)

  abbrev pub Filled : List (Call V) → Call V → Type 0
  Filled now (Call.indexed field f answer) = Unit
  Filled now (Call.completed name watches r answer) =
      IsGiven r.client × IsGiven r.recorder × (name ≡ "location_class" → Some IsIndexed now)
  Filled now (Call.completed_publisher name watches r answer) =
      IsGiven r.source_cluster × IsGiven r.hub_cluster × IsGiven r.recorder

  or_default-IsGiven : {A : Type 0} (a : A) (o : Option A) → IsGiven (or_default a o)
  or_default-IsGiven a none = refl
  or_default-IsGiven a (some b) = refl

  readiness-ne-class : ◌≢◌ {A = String} "location_readiness" "location_class"
  readiness-ne-class e = cc

  accepted-ne-class : ◌≢◌ {A = String} "location_class_accepted" "location_class"
  accepted-ne-class e = cc

  abbrev Done : Unit {0} → List (Call V) → Type 0
  Done a now = Unit {0}

  setup-Traced : (c : Controller V) → Traced Filled Done [] (setup_with_manager c)
  unfolding setup_location_class setup_location_readiness setup_location_class_accepted
      setup_location_publisher
  setup-Traced (location_class r) =
      bind-Traced Filled (λ a now. Some IsIndexed now)
        (request-Traced Filled _ _ _ (λ _. tt) (λ u. inl refl))
        λ _ now indexed.
          request-Traced Filled _ _ _
            (λ _. (or_default-IsGiven _ r.client, or_default-IsGiven _ r.recorder, λ _. indexed))
            (λ _. tt)
  setup-Traced (location_readiness named r) =
      request-Traced Filled _ _ _
        (λ _. (
          or_default-IsGiven _ r.client,
          or_default-IsGiven _ r.recorder,
          λ e. absurd (readiness-ne-class e),
        ))
        (λ _. tt)
  setup-Traced (location_class_accepted r) =
      request-Traced Filled _ _ _
        (λ _. (
          or_default-IsGiven _ r.client,
          or_default-IsGiven _ r.recorder,
          λ e. absurd (accepted-ne-class e),
        ))
        (λ _. tt)
  setup-Traced (location_publisher r) =
      if-Traced Filled (is_nil r.source_cluster || is_nil r.hub_cluster) _ _
        (λ _. raise-Traced Filled _)
        (λ both.
          request-Traced Filled _ _ _
            (λ _. (ground (arith, both), ground (arith, both), or_default-IsGiven _ r.recorder))
            (λ _. tt))

  -- Every reconciler that one of the four setup functions hands to the manager has what its runs
  -- need, whatever it had before: a client and a recorder, and for the publisher its two clusters and
  -- a recorder. The class controller is handed over only after its index on Locations has been
  -- installed in the same setup.
  pub setup-Filled :
      (c : Controller V) (s : V.State) → Justified Filled [] (setup_with_manager c s).2
  setup-Filled c s = Holds-Justified Filled Done [] _ ((setup-Traced c).run s)
