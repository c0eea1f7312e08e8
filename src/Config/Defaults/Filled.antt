-- ===== src/Config/Defaults/Filled.antt =====
-- Defaults fill what is not configured, keep what is, and are applied once.
use locations.Prelude.{
  String, Bool, true, false, Option, none, some, arith, ◌≡◌, refl, ◌==◌, if◌then◌else◌,
}
use locations.Prelude.Int.{ℤ, pos, eqb_ℤ}
use locations.Config.{
  Float32, LocationOperator, MetricsServerConfig, LocationPublisherConfig, minutes, is_zero_float,
}
use locations.Config.Defaults.{
  or_some, or_text, or_int, or_float, set_object_defaults, default_metrics_server, default_tls,
  default_publisher, default_client,
}

or_some_idem : (p : Option Bool) (b : Bool) → or_some (or_some p b) b ≡ or_some p b
unfolding or_some
or_some_idem none b = refl
or_some_idem (some c) b = refl

or_text_idem : (s d : String) → or_text (or_text s d) d ≡ or_text s d
unfolding or_text
or_text_idem s d = ground arith

or_int_idem : (n d : ℤ) → or_int (or_int n d) d ≡ or_int n d
unfolding or_int
or_int_idem n d = ground arith

or_float_idem : (q d : Float32) → or_float (or_float q d) d ≡ or_float q d
unfolding or_float
or_float_idem q d = ground arith

set_object_defaults_idem :
    (serving_certs : String) (o : LocationOperator)
    → set_object_defaults serving_certs (set_object_defaults serving_certs o)
      ≡ set_object_defaults serving_certs o
unfolding set_object_defaults default_metrics_server default_tls default_publisher default_client
set_object_defaults_idem d o = simp (or_some_idem, or_text_idem, or_int_idem, or_float_idem)

-- What a value is once it has a default.
abbrev filled : {A : Type 0} → Bool → A → A → A
filled unset default value = if unset then default else value

abbrev is_nil : Option Bool → Bool
is_nil none = true
is_nil (some b) = false

abbrev IsFilledMetrics : String → MetricsServerConfig → MetricsServerConfig → Type 0
IsFilledMetrics serving_certs o d =
    (d.secure_serving ≡ filled (is_nil o.secure_serving) (some true) o.secure_serving)
    × (d.bind_address ≡ filled (o.bind_address == "") "0" o.bind_address)
    × (d.tls.secret_ref ≡ o.tls.secret_ref)
    × (d.tls.cert_dir ≡ filled (o.tls.cert_dir == "") serving_certs o.tls.cert_dir)
    × (d.tls.cert_name ≡ filled (o.tls.cert_name == "") "tls.crt" o.tls.cert_name)
    × (d.tls.key_name ≡ filled (o.tls.key_name == "") "tls.key" o.tls.key_name)

-- 50 as a float32 is 0x42480000.
abbrev IsFilledPublisher : LocationPublisherConfig → LocationPublisherConfig → Type 0
IsFilledPublisher o d =
    (d.source_kubeconfig_path ≡ o.source_kubeconfig_path)
    × (d.hub_kubeconfig_path ≡ o.hub_kubeconfig_path)
    × (d.location_scoped_resources ≡ o.location_scoped_resources)
    × (d.safety_resync_period
        ≡ filled (eqb_ℤ o.safety_resync_period (pos 0)) (minutes 30) o.safety_resync_period)
    × (d.client.qps ≡ filled (is_zero_float o.client.qps) 0x42480000 o.client.qps)
    × (d.client.burst ≡ filled (eqb_ℤ o.client.burst (pos 0)) (pos 100) o.client.burst)

-- Every field of a configuration that is set stays as it is, and every other field has its documented
-- default.
abbrev pub IsFilled : String → LocationOperator → LocationOperator → Type 0
IsFilled serving_certs o d =
    IsFilledMetrics serving_certs o.metrics_server d.metrics_server
    × IsFilledPublisher o.location_publisher d.location_publisher
    × (d.kubeconfig_path ≡ o.kubeconfig_path)
    × (d.location_readiness ≡ o.location_readiness)

or_some-is_nil : (p : Option Bool) → or_some p true ≡ filled (is_nil p) (some true) p
unfolding or_some
or_some-is_nil none = refl
or_some-is_nil (some b) = refl

filled_metrics :
    (serving_certs : String) (o : LocationOperator)
    → IsFilledMetrics serving_certs o.metrics_server
        (set_object_defaults serving_certs o).metrics_server
unfolding set_object_defaults or_text
filled_metrics d o = (or_some-is_nil o.metrics_server.secure_serving, refl, refl, refl, refl, refl)

filled_publisher :
    (serving_certs : String) (o : LocationOperator)
    → IsFilledPublisher o.location_publisher
        (set_object_defaults serving_certs o).location_publisher
unfolding set_object_defaults or_int or_float
filled_publisher d o = (refl, refl, refl, refl, ground arith, ground arith)

-- Setting the defaults keeps every field that is configured, a zero number, an empty text and a nil
-- pointer counting as not configured, gives every other field with a default its documented one,
-- changes nothing else, and done again changes nothing more.
pub set_object_defaults-IsFilled :
    (serving_certs : String) (o : LocationOperator)
    → IsFilled serving_certs o (set_object_defaults serving_certs o)
      × (set_object_defaults serving_certs (set_object_defaults serving_certs o)
          ≡ set_object_defaults serving_certs o)
unfolding set_object_defaults
set_object_defaults-IsFilled d o =
    ((filled_metrics d o, filled_publisher d o, refl, refl), set_object_defaults_idem d o)
