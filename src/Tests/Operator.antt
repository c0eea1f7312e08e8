-- ===== src/Tests/Operator.antt =====
-- The operator's start, its configuration, and the identity of a cell.
use locations.Prelude.{
  String, true, false, none, List, [], ◌∷◌, ◌≡◌, refl, ◌≢◌, ◌⊎◌, ◌↔◌, All, length,
}
use locations.Prelude.Int.{pos, ltb_ℤ}
use locations.Prelude.Effect.{ok, err}
use locations.Prelude.Trace.{Justified}
use locations.Prelude.Text.Trim.{trim_space}
use locations.Prelude.Text.Prefix.{text_contains}
use locations.Api.{ServingLocation}
use locations.Config.{LocationOperator, fifty}
use locations.Config.Defaults.{set_object_defaults, or_int}
use locations.Config.Defaults.Resync.{set_object_defaults_resync}
use locations.Config.Defaults.Filled.{IsFilled, set_object_defaults-IsFilled}
use locations.Config.Validate.{validate, publisher_enabled, resource_problems}
use locations.Config.Validate.Accepts.{IsComplete, validate_iff}
use locations.Identity.{LocationUnresolved, Error, resolve}
use locations.Identity.Resolved.{resolve-unresolved_iff}
use locations.Operator.Client.{Env, Flags}
use locations.Operator.Run.{run}
use locations.Operator.Enabled.{Justification, run-Configured}
use locations.Tests.Memory.{copy, publisher}

abbrev config : LocationOperator
config = record {
  metrics_server = record {
    secure_serving = none;
    bind_address = "";
    tls = record { secret_ref = none; cert_dir = ""; cert_name = ""; key_name = "" };
  };
  kubeconfig_path = "";
  location_publisher = publisher.config;
  location_readiness = record { controller_name = "milo.io/edge" };
}

-- A world where every call succeeds.
abbrev obliging : Env
obliging = record {
  loader = record {
    Rest = Unit {0};
    Failure = Unit {0};
    get_config = ok (record { qps = fifty; burst = pos 100; rest = tt });
    build_config = λ path. ok (record { qps = fifty; burst = pos 100; rest = tt });
  };
  State = Unit {0};
  Failure = Unit {0};
  of_loader = λ e. e;
  read_file = λ file s. (ok "", s);
  decode = λ text s. (ok config, s);
  new_client = λ cfg s. (ok tt, s);
  leader_election_rest = λ rest. rest;
  new_manager = λ cfg options s. (ok tt, s);
  setup = λ c s. (ok tt, s);
  new_cluster = λ side cfg s. (ok tt, s);
  add_cluster = λ side elected s. (ok tt, s);
  add_check = λ name s. (ok tt, s);
  start = λ s. (ok tt, s);
}

abbrev flags : Flags
flags = record {
  probe_addr = ":8081";
  enable_leader_election = true;
  leader_election_namespace = "";
  server_config_file = "config.yaml";
}

run-Configured_example : Justified (Justification obliging) [] (run obliging flags tt).2
run-Configured_example = run-Configured obliging flags tt

set_object_defaults-IsFilled_example :
    IsFilled "/tmp/certs" config (set_object_defaults "/tmp/certs" config)
    × (set_object_defaults "/tmp/certs" (set_object_defaults "/tmp/certs" config)
        ≡ set_object_defaults "/tmp/certs" config)
set_object_defaults-IsFilled_example = set_object_defaults-IsFilled "/tmp/certs" config

validate_iff_example : (validate config ≡ none) ↔ (
    ((config.location_publisher.hub_kubeconfig_path ≡ "")
      ⊎ ((ltb_ℤ config.location_publisher.safety_resync_period (pos 0) ≡ false)
          × All IsComplete config.location_publisher.location_scoped_resources))
    × ((trim_space config.location_readiness.controller_name ≡ "")
        ⊎ (text_contains "/" config.location_readiness.controller_name ≡ true)))
validate_iff_example = validate_iff config

abbrev delivered : List ServingLocation
delivered = copy "fra" "FRA" [] ∷ copy "iad" "IAD" [] ∷ []

resolve-unresolved_iff_example :
    ((u : LocationUnresolved) × (resolve {F = Unit {0}} (record { name = "" }) (ok delivered)
        ≡ err (Error.unresolved u)))
    ↔ ((◌≡◌ {A = String} "" "") × (length delivered ≢ 1))
resolve-unresolved_iff_example = resolve-unresolved_iff (record { name = "" }) delivered

config_valid : validate (set_object_defaults "certs" config) ≡ none
unfolding validate set_object_defaults trim_space text_contains or_int resource_problems
config_valid = refl

config_publishes : publisher_enabled config.location_publisher ≡ true
unfolding publisher_enabled
config_publishes = refl

set_object_defaults_resync_example :
    ltb_ℤ (pos 0) (set_object_defaults "certs" config).location_publisher.safety_resync_period
    ≡ true
set_object_defaults_resync_example =
    set_object_defaults_resync "certs" config config_valid config_publishes
