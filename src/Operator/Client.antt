-- ===== src/Operator/Client.antt =====
-- What the operator's command talks to while it starts: files, the decoder, client-go and the
-- controller manager.
use locations.Prelude.{String, Bool}
use locations.Prelude.Effect.{Except, Action, query, wrap, ◌>>=◌}
use locations.Config.{LocationOperator, LocationPublisherConfig}
use locations.Config.Connect.{Loader, RestConfig, MetricsOptions}
use locations.Config.Validate.{ConfigError}

-- The flags of the command.
pub record Flags : Type 0 where
  pub probe_addr : String
  pub enable_leader_election : Bool
  pub leader_election_namespace : String
  pub server_config_file : String

-- `ctrl.Options`, as far as the command fills it. `LeaderElectionReleaseOnCancel` is always set.
pub record ManagerOptions (Rest : Type 0) : Type 0 where
  pub metrics : MetricsOptions
  pub health_probe_bind_address : String
  pub leader_election : Bool
  pub leader_election_id : String
  pub leader_election_namespace : String
  pub leader_election_config : RestConfig Rest
  pub leader_election_release_on_cancel : Bool

-- A controller that is handed to the manager.
pub data Controller : Type 0 where
  location_class : Controller
  location_readiness : (controller_name : String) → Controller
  location_class_accepted : (controller_name : String) → Controller
  location_publisher : LocationPublisherConfig → Controller

pub data Side : Type 0 where
  source_side hub_side : Side

pub record Env : Type 1 where
  pub loader : Loader
  pub State : Type 0
  pub Failure : Type 0
  pub of_loader : loader.Failure → Failure
  -- `os.ReadFile`
  pub read_file : String → State → Except Failure String × State
  -- `runtime.DecodeInto` with the strict decoder, which applies the defaults
  pub decode : String → State → Except Failure LocationOperator × State
  -- `client.New`
  pub new_client : RestConfig loader.Rest → State → Except Failure (Unit {0}) × State
  -- `rest.CopyConfig` with no rate limiter and a dialer of its own
  pub leader_election_rest : loader.Rest → loader.Rest
  pub new_manager :
      RestConfig loader.Rest
      → ManagerOptions loader.Rest
      → State
      → Except Failure (Unit {0}) × State
  -- `SetupWithManager`: the builder's answer
  pub setup : Controller → State → Except Failure (Unit {0}) × State
  -- `cluster.New`
  pub new_cluster : Side → RestConfig loader.Rest → State → Except Failure (Unit {0}) × State
  -- `mgr.Add` of a cluster, and whether it needs leader election
  pub add_cluster : Side → Bool → State → Except Failure (Unit {0}) × State
  -- `mgr.AddHealthzCheck` and `mgr.AddReadyzCheck`
  pub add_check : String → State → Except Failure (Unit {0}) × State
  -- `mgr.Start`
  pub start : State → Except Failure (Unit {0}) × State

pub data Call (V : Env) : Type 0 where
  read_config : String → Except V.Failure String → Call V
  decoded_config : String → Except V.Failure LocationOperator → Call V
  created_client : Except V.Failure (Unit {0}) → Call V
  created_manager : ManagerOptions V.loader.Rest → Except V.Failure (Unit {0}) → Call V
  set_up : Controller → Except V.Failure (Unit {0}) → Call V
  created_cluster : Side → Except V.Failure (Unit {0}) → Call V
  added_cluster : Side → Bool → Except V.Failure (Unit {0}) → Call V
  added_check : String → Except V.Failure (Unit {0}) → Call V
  started : Except V.Failure (Unit {0}) → Call V

-- The errors that the command returns, one for each place.
pub data Error (F : Type 0) : Type 0 where
  reading_config decoding_config loading_rest_config creating_client starting_manager : F → Error F
  invalid_config : ConfigError → Error F
  creating_controller : Controller → F → Error F
  loading_kubeconfig : Side → F → Error F
  constructing_cluster : Side → F → Error F
  adding_cluster : F → Error F
  setting_up_check running_manager : F → Error F

abbrev pub M : Env → Type 0 → Type 0
M V A = Action V.State (Error V.Failure) (Call V) A

module _ (V : Env) where
  -- A call whose error is wrapped and returned.
  abbrev pub request :
      {A : Type 0}
      → (Except V.Failure A → Call V)
      → (V.Failure → Error V.Failure)
      → (V.State → Except V.Failure A × V.State)
      → M V A
  request record_of w q = query record_of q >>= wrap w
