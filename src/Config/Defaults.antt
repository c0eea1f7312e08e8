-- ===== src/Config/Defaults.antt =====
-- The defaults of internal/config/config.go, and the generated function that applies them all,
-- internal/config/zz_generated.defaults.go.
pub mod Filled
pub mod Resync
use locations.Prelude.{String, Option, none, some, Bool, true, ◌==◌, if◌then◌else◌}
use locations.Prelude.Int.{ℤ, pos, eqb_ℤ}
use locations.Config.{
  Float32, is_zero_float, fifty, minutes, TlsConfig, MetricsServerConfig, ClientConnectionConfig,
  LocationPublisherConfig, LocationOperator,
}

-- `*p == nil` replaced by a pointer to a value
unfoldable pub or_some : Option Bool → Bool → Option Bool
or_some none b = some b
or_some (some c) b = some c

-- A text, or another one in place of the empty text.
unfoldable pub or_text : String → String → String
or_text s d = if s == "" then d else s

-- A number, or another one in place of zero.
unfoldable pub or_int : ℤ → ℤ → ℤ
or_int n d = if eqb_ℤ n (pos 0) then d else n

unfoldable pub or_float : Float32 → Float32 → Float32
or_float q d = if is_zero_float q then d else q

-- `filepath.Join(os.TempDir(), "k8s-metrics-server", "serving-certs")` is given as a text, since the
-- temporary folder is the operating system's.
unfoldable pub default_metrics_server : String → MetricsServerConfig → MetricsServerConfig
default_metrics_server serving_certs obj = record obj {
  secure_serving = or_some obj.secure_serving true;
  bind_address = or_text obj.bind_address "0";
  tls = record (obj.tls) { cert_dir = or_text obj.tls.cert_dir serving_certs };
}

unfoldable pub default_tls : TlsConfig → TlsConfig
default_tls obj = record obj {
  cert_name = or_text obj.cert_name "tls.crt";
  key_name = or_text obj.key_name "tls.key";
}

unfoldable pub default_publisher : LocationPublisherConfig → LocationPublisherConfig
default_publisher obj = record obj {
  safety_resync_period = or_int obj.safety_resync_period (minutes 30);
}

unfoldable pub default_client : ClientConnectionConfig → ClientConnectionConfig
default_client obj = record { qps = or_float obj.qps fifty; burst = or_int obj.burst (pos 100) }

-- `SetDefaults_LocationOperator` sets nothing.
abbrev pub default_operator : LocationOperator → LocationOperator
default_operator obj = obj

-- `SetObjectDefaults_LocationOperator`: the nested defaults in order; the last two tests repeat
-- those of the client's.
unfoldable pub set_object_defaults : String → LocationOperator → LocationOperator
unfolding default_metrics_server default_tls default_publisher default_client
set_object_defaults serving_certs obj =
    let start = default_operator obj in
    let metrics = default_metrics_server serving_certs start.metrics_server in
    let with_tls = record metrics { tls = default_tls metrics.tls } in
    let publisher = default_publisher start.location_publisher in
    let client = default_client publisher.client in
    record start {
      metrics_server = with_tls;
      location_publisher = record publisher { client = default_client client };
    }
