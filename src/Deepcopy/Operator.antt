-- ===== src/Deepcopy/Operator.antt =====
-- The configuration with its pointers, and the generated copies of it.
use locations.Prelude.{Bool, List, String, Option}
use locations.Config.{
  SecretReference, Duration, ClientConnectionConfig, LocationReadinessConfig,
  LocationScopedResource,
}
use locations.Deepcopy.Store.{Address, Store, copy_pointer, deep_copy, returned}

pub data Cell : Type 0 where
  flag : Bool → Cell
  secret : SecretReference → Cell
  resources : List LocationScopedResource → Cell

pub record TlsConfigAt : Type 0 where
  pub secret_ref : Option Address
  pub cert_dir : String
  pub cert_name : String
  pub key_name : String

pub record MetricsServerConfigAt : Type 0 where
  pub secure_serving : Option Address
  pub bind_address : String
  pub tls : TlsConfigAt

pub record LocationPublisherConfigAt : Type 0 where
  pub source_kubeconfig_path : String
  pub hub_kubeconfig_path : String
  pub safety_resync_period : Duration
  pub location_scoped_resources : Option Address
  pub client : ClientConnectionConfig

pub record LocationOperatorAt : Type 0 where
  pub metrics_server : MetricsServerConfigAt
  pub kubeconfig_path : String
  pub location_publisher : LocationPublisherConfigAt
  pub location_readiness : LocationReadinessConfig

-- Each `DeepCopyInto` gives what `*out` is afterwards.
unfoldable pub tls_deep_copy_into : TlsConfigAt → Store Cell → TlsConfigAt × Store Cell
tls_deep_copy_into x h =
    let (p, h') = copy_pointer x.secret_ref h in (record x { secret_ref = p }, h')

unfoldable pub metrics_deep_copy_into :
    MetricsServerConfigAt → Store Cell → MetricsServerConfigAt × Store Cell
unfolding tls_deep_copy_into
metrics_deep_copy_into x h =
    let (p, h') = copy_pointer x.secure_serving h in
    let (t, h'') = tls_deep_copy_into x.tls h' in (record x { secure_serving = p; tls = t }, h'')

unfoldable pub publisher_deep_copy_into :
    LocationPublisherConfigAt → Store Cell → LocationPublisherConfigAt × Store Cell
publisher_deep_copy_into x h =
    let out = record x { safety_resync_period = x.safety_resync_period } in
    let (p, h') = copy_pointer x.location_scoped_resources h in
    (record out { location_scoped_resources = p; client = x.client }, h')

unfoldable pub operator_deep_copy_into :
    LocationOperatorAt → Store Cell → LocationOperatorAt × Store Cell
operator_deep_copy_into x h =
    let (m, h') = metrics_deep_copy_into x.metrics_server h in
    let (p, h'') = publisher_deep_copy_into x.location_publisher h' in
    (
      record x {
        metrics_server = m;
        location_publisher = p;
        location_readiness = x.location_readiness;
      },
      h'',
    )

-- `(*LocationOperator).DeepCopyObject`; `none` is the nil interface
abbrev pub operator_deep_copy_object :
    Option LocationOperatorAt → Store Cell → Option LocationOperatorAt × Store Cell
operator_deep_copy_object x h =
    let (c, h') = deep_copy operator_deep_copy_into x h in (returned c, h')
