-- ===== src/Config/Connect.antt =====
-- How a connection is resolved: `RestConfig`, `SourceRestConfig`, `HubRestConfig`, `restConfig` and
-- `ApplyTo`; and the options of the metrics server.
use locations.Prelude.{String, Option, none, some, Bool, false, List, [], ◌∷◌}
use locations.Prelude.{◌==◌, if◌then◌else◌}
use locations.Prelude.Int.{ℤ, pos, ltb_ℤ}
use locations.Prelude.Effect.{Except, ok, err}
use locations.Config.{
  Float32, is_positive_float, TlsConfig, SecretReference, MetricsServerConfig,
  ClientConnectionConfig, LocationPublisherConfig, LocationOperator,
}

-- A `rest.Config`: its limits, and the rest of it.
pub record RestConfig (Rest : Type 0) : Type 0 where
  pub qps : Float32
  pub burst : ℤ
  pub rest : Rest

-- client-go and controller-runtime, as far as they load a configuration
pub record Loader : Type 1 where
  pub Rest : Type 0
  pub Failure : Type 0
  -- `ctrl.GetConfig()`
  pub get_config : Except Failure (RestConfig Rest)
  -- `clientcmd.BuildConfigFromFlags("", path)`
  pub build_config : String → Except Failure (RestConfig Rest)

unfoldable pub apply_to :
    {Rest : Type 0} → ClientConnectionConfig → RestConfig Rest → RestConfig Rest
apply_to c cfg = record cfg {
  qps = if is_positive_float c.qps then c.qps else cfg.qps;
  burst = if ltb_ℤ (pos 0) c.burst then c.burst else cfg.burst;
}

module _ (L : Loader) where
  abbrev pub Loaded : Type 0
  Loaded = Except L.Failure (RestConfig L.Rest)

  -- `(*LocationOperator).RestConfig`
  unfoldable pub operator_rest_config : LocationOperator → Loaded
  operator_rest_config c =
      if c.kubeconfig_path == "" then L.get_config else L.build_config c.kubeconfig_path

  abbrev applied : LocationPublisherConfig → Loaded → Loaded
  applied c (ok cfg) = ok (apply_to c.client cfg)
  applied c (err e) = err e

  -- `(*LocationPublisherConfig).restConfig`
  unfoldable pub rest_config : LocationPublisherConfig → String → Loaded
  unfolding apply_to
  rest_config c path = applied c (if path == "" then L.get_config else L.build_config path)

  unfoldable pub source_rest_config : LocationPublisherConfig → String → Loaded
  unfolding rest_config
  source_rest_config c fallback =
      let path = c.source_kubeconfig_path in rest_config c (if path == "" then fallback else path)

  unfoldable pub hub_rest_config : LocationPublisherConfig → Loaded
  unfolding rest_config
  hub_rest_config c = rest_config c c.hub_kubeconfig_path

-- `metricsserver.Options` as `(*MetricsServerConfig).Options` fills it. A filter, and the certificate
-- that `(*TLSConfig).Options` reads from a secret, are there or not.
pub record MetricsOptions : Type 0 where
  pub secure_serving : Bool
  pub bind_address : String
  pub cert_dir : String
  pub cert_name : String
  pub key_name : String
  pub has_filter : Bool
  pub tls_secrets : List SecretReference

-- `(*TLSConfig).Options`: one function for the secret, if there is one
abbrev pub tls_options : TlsConfig → List SecretReference
tls_options c = elim c.secret_ref [ none ↦ [] | some s ↦ s ∷ [] ]

abbrev is_secure : Option Bool → Bool
is_secure none = false
is_secure (some b) = b

unfoldable pub metrics_options : MetricsServerConfig → MetricsOptions
metrics_options c = record {
  secure_serving = is_secure c.secure_serving;
  bind_address = c.bind_address;
  cert_dir = c.tls.cert_dir;
  cert_name = c.tls.cert_name;
  key_name = c.tls.key_name;
  has_filter = is_secure c.secure_serving;
  tls_secrets = elim c.tls.secret_ref [ none ↦ [] | some s ↦ tls_options c.tls ];
}
