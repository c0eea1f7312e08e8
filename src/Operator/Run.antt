-- ===== src/Operator/Run.antt =====
-- The command's `RunE`, from the configuration to the running manager.
use locations.Prelude.{String, true, Option, none, some}
use locations.Prelude.{◌==◌, if◌then◌else◌}
use locations.Prelude.Int.{pos}
use locations.Prelude.Effect.{Except, ok, err, pure, raise, ◌>>=◌, ◌>>◌}
use locations.Config.{LocationOperator}
use locations.Config.Validate.{ConfigError, validate, readiness_enabled, publisher_enabled}
use locations.Config.Connect.{
  RestConfig, operator_rest_config, source_rest_config, hub_rest_config, metrics_options,
}
use locations.Operator.Client.{
  Env, Flags, ManagerOptions, Controller, Side, Call, Error, M, request, source_side, hub_side,
}

module _ (V : Env) where
  abbrev pub loaded :
      {A : Type 0} → (V.Failure → Error V.Failure) → Except V.loader.Failure A → M V A
  loaded w (ok a) = pure a
  loaded w (err e) = raise (w (V.of_loader e))

  -- `leaderElectionRestConfig`; 5 as a `float32` is 0x40a00000
  unfoldable pub leader_election_rest_config : RestConfig V.loader.Rest → RestConfig V.loader.Rest
  leader_election_rest_config base = record {
    qps = 0x40a00000;
    burst = pos 10;
    rest = V.leader_election_rest base.rest;
  }

  unfoldable pub manager_options :
      Flags → LocationOperator → RestConfig V.loader.Rest → ManagerOptions V.loader.Rest
  unfolding leader_election_rest_config
  manager_options flags config cfg = record {
    metrics = metrics_options config.metrics_server;
    health_probe_bind_address = flags.probe_addr;
    leader_election = flags.enable_leader_election;
    leader_election_id = "locations.miloapis.com";
    leader_election_namespace = flags.leader_election_namespace;
    leader_election_config = leader_election_rest_config cfg;
    leader_election_release_on_cancel = true;
  }

  abbrev setup_controller : Controller → M V (Unit {0})
  setup_controller c = request V (Call.set_up c) (Error.creating_controller c) (V.setup c)

  abbrev new_cluster : Side → RestConfig V.loader.Rest → M V (Unit {0})
  new_cluster side cfg =
      request V (Call.created_cluster side) (Error.constructing_cluster side)
        (V.new_cluster side cfg)

  -- `mgr.Add(leaderElectedRunnable{…})`
  abbrev add_cluster : Side → M V (Unit {0})
  add_cluster side =
      request V (Call.added_cluster side true) Error.adding_cluster (V.add_cluster side true)

  -- `setupLocationPublisher`
  unfoldable pub setup_location_publisher : LocationOperator → M V (Unit {0})
  setup_location_publisher config = do
    source ←
        loaded (Error.loading_kubeconfig source_side)
          (source_rest_config V.loader config.location_publisher config.kubeconfig_path)
    hub ←
        loaded (Error.loading_kubeconfig hub_side)
          (hub_rest_config V.loader config.location_publisher)
    new_cluster source_side source
    new_cluster hub_side hub
    add_cluster source_side
    add_cluster hub_side
    setup_controller (Controller.location_publisher config.location_publisher)

  unfoldable pub setup_readiness : LocationOperator → M V (Unit {0})
  setup_readiness config =
      let name = config.location_readiness.controller_name in
      if readiness_enabled config.location_readiness
      then setup_controller (Controller.location_readiness name)
        >> setup_controller (Controller.location_class_accepted name)
      else pure tt

  unfoldable pub setup_publisher : LocationOperator → M V (Unit {0})
  setup_publisher config =
      if publisher_enabled config.location_publisher
      then setup_location_publisher config
      else pure tt

  abbrev add_check : String → M V (Unit {0})
  add_check name = request V (Call.added_check name) Error.setting_up_check (V.add_check name)

  -- The command behind the validation.
  unfoldable pub start_operator : Flags → LocationOperator → M V (Unit {0})
  start_operator flags config = do
    cfg ← loaded Error.loading_rest_config (operator_rest_config V.loader config)
    request V Call.created_client Error.creating_client (V.new_client cfg)
    let options = manager_options flags config cfg
    request V (Call.created_manager options) Error.starting_manager (V.new_manager cfg options)
    setup_controller Controller.location_class
    setup_readiness config
    setup_publisher config
    add_check "healthz"
    add_check "readyz"
    request V Call.started Error.running_manager V.start

  abbrev pub check : Flags → LocationOperator → Option ConfigError → M V (Unit {0})
  check flags config none = start_operator flags config
  check flags config (some e) = raise (Error.invalid_config e)

  -- The bytes of the configuration: none without a file.
  unfoldable pub read_config : String → M V String
  read_config file =
      if file == ""
      then pure ""
      else request V (Call.read_config file) Error.reading_config (V.read_file file)

  unfoldable pub run : Flags → M V (Unit {0})
  run flags = do
    text ← read_config flags.server_config_file
    config ← request V (Call.decoded_config text) Error.decoding_config (V.decode text)
    check flags config (validate config)
