-- ===== src/Wiring/Client.antt =====
-- What the `SetupWithManager` functions talk to, and what they hand over.
use locations.Prelude.{String, Option, List}
use locations.Prelude.Effect.{Except, Action, query, wrap, ◌>>=◌}
use locations.Api.{Location, LocationClass, ServingLocation}
use locations.Class.Index.{Object}
use locations.Readiness.Client as Reporting

-- The cache whose objects are watched: the manager's, or one of the publisher's clusters'.
pub data Origin : Type 0 where
  manager_cache source_cache hub_cache : Origin

-- A watch of one kind of objects, and the requests for a changed one. `S` is what the requests are
-- computed from.
pub data Watch (S : Type 0) : Type 0 where
  of_locations : Origin → (Location → S → List String × S) → Watch S
  of_classes : Origin → (LocationClass → S → List String × S) → Watch S
  of_copies : Origin → (ServingLocation → S → List String × S) → Watch S
  -- policies are unstructured objects: their name
  of_policies : Origin → (String → S → List String × S) → Watch S

-- `LocationClassReconciler`, and the reconciler that accepts classes without its name
pub record Reconciler (C R : Type 0) : Type 0 where
  pub client : Option C
  pub recorder : Option R

pub record PublisherReconciler (K R : Type 0) : Type 0 where
  pub source_cluster : Option K
  pub hub_cluster : Option K
  pub recorder : Option R

pub record Env : Type 1 where
  pub reporting : Reporting.Env
  pub State : Type 0
  pub Failure : Type 0
  pub ClientOf : Type 0
  pub RecorderOf : Type 0
  pub ClusterOf : Type 0
  -- `mgr.GetClient`
  pub manager_client : ClientOf
  -- `mgr.GetEventRecorder`
  pub event_recorder : String → RecorderOf
  -- the requests of the handler that `For` installs, for an object of this name
  pub for_object : String → List String
  -- `mgr.GetFieldIndexer().IndexField` on Locations
  pub index_field : String → (Object → List String) → State → Except Failure (Unit {0}) × State
  -- the builder's `Complete`: of a reconciler with a client, or of the publisher's
  pub complete :
      String
      → List (Watch reporting.State)
      → Reconciler ClientOf RecorderOf
      → State
      → Except Failure (Unit {0}) × State
  pub complete_publisher :
      String
      → List (Watch reporting.State)
      → PublisherReconciler ClusterOf RecorderOf
      → State
      → Except Failure (Unit {0}) × State

pub data Call (V : Env) : Type 0 where
  indexed : String → (Object → List String) → Except V.Failure (Unit {0}) → Call V
  completed :
      String
      → List (Watch V.reporting.State)
      → Reconciler V.ClientOf V.RecorderOf
      → Except V.Failure (Unit {0})
      → Call V
  completed_publisher :
      String
      → List (Watch V.reporting.State)
      → PublisherReconciler V.ClusterOf V.RecorderOf
      → Except V.Failure (Unit {0})
      → Call V

pub data Error (F : Type 0) : Type 0 where
  clusters_required : Error F
  indexing completing : F → Error F

abbrev pub M : Env → Type 0 → Type 0
M V A = Action V.State (Error V.Failure) (Call V) A

module _ (V : Env) where
  -- A call whose error is wrapped and returned.
  abbrev pub request :
      {A : Type 0}
      → (Except V.Failure A → Call V)
      → (V.Failure → Error V.Failure)
      → (V.State → Except V.Failure A × V.State)
      → M V A
  request record_of w q = query record_of q >>= wrap w
