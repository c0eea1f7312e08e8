-- ===== src/Config.antt =====
-- internal/config/config.go and zz_generated.defaults.go: the operator's configuration, its
-- defaults and its validation.
pub mod Defaults
pub mod Validate
pub mod Connect
use locations.Prelude.{ℕ, String, Option, Bool, List}
use Prim.Native.Nat.{◌*◌}
use locations.Prelude.{suc, ◌+◌, ◌||◌, ◌&&◌, ◌==◌, eqb, ltb, leb, if◌then◌else◌}
use locations.Prelude.Int.{ℤ, pos, ltb_ℤ, eqb_ℤ}
use locations.Prelude.Text.Trim.{trim_space}

-- A `time.Duration`: nanoseconds.
abbrev pub Duration : Type 0
Duration = ℤ

abbrev pub minutes : ℕ → Duration
minutes n = pos (n * 60000000000)

-- A `float32` as its 32 bits.
abbrev pub Float32 : Type 0
Float32 = ℕ

-- `x == 0`: either zero
abbrev pub is_zero_float : Float32 → Bool
is_zero_float x = eqb x 0 || eqb x 0x80000000

-- `x > 0`: no sign, no zero and no NaN
abbrev pub is_positive_float : Float32 → Bool
is_positive_float x = ltb 0 x && leb x 0x7f800000

abbrev pub fifty : Float32
fifty = 0x42480000

pub record SecretReference : Type 0 where
  pub name : String
  pub ns : String

pub record TlsConfig : Type 0 where
  pub secret_ref : Option SecretReference
  pub cert_dir : String
  pub cert_name : String
  pub key_name : String

pub record MetricsServerConfig : Type 0 where
  pub secure_serving : Option Bool
  pub bind_address : String
  pub tls : TlsConfig

pub record LocationScopedResource : Type 0 where
  pub api_version : String
  pub kind : String
  pub location_label : String

pub record ClientConnectionConfig : Type 0 where
  pub qps : Float32
  pub burst : ℤ

pub record LocationPublisherConfig : Type 0 where
  pub source_kubeconfig_path : String
  pub hub_kubeconfig_path : String
  pub safety_resync_period : Duration
  pub location_scoped_resources : List LocationScopedResource
  pub client : ClientConnectionConfig

pub record LocationReadinessConfig : Type 0 where
  pub controller_name : String

pub record LocationOperator : Type 0 where
  pub metrics_server : MetricsServerConfig
  pub kubeconfig_path : String
  pub location_publisher : LocationPublisherConfig
  pub location_readiness : LocationReadinessConfig
