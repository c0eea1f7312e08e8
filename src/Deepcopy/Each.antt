-- ===== src/Deepcopy/Each.antt =====
-- `DeepCopy` of the structs inside the kinds and inside the configuration: of nil, or of a pointer.
use locations.Prelude.{Option}
use locations.Api.{
  Coordinates, LocationClassReference, LocationReference, ParametersReference,
  ServingLocationSource,
}
use locations.Config.{ClientConnectionConfig, LocationReadinessConfig, LocationScopedResource}
use locations.Deepcopy.Store.{Store, deep_copy, plain_deep_copy_into}
use locations.Deepcopy.Operator as Config
use locations.Deepcopy.Operator.{
  TlsConfigAt, MetricsServerConfigAt, LocationPublisherConfigAt, tls_deep_copy_into,
  metrics_deep_copy_into, publisher_deep_copy_into,
}
use locations.Deepcopy.Kinds.{
  Library, KindStore, LocationSpecAt, StatusAt, LocationClassSpecAt, ServingLocationSpecAt,
  location_spec_deep_copy_into, status_deep_copy_into, location_class_spec_deep_copy_into,
  source_deep_copy_into, serving_location_spec_deep_copy_into,
}

module _ (L : Library) where
  abbrev pub coordinates_deep_copy :
      Option Coordinates → KindStore L → Option Coordinates × KindStore L
  coordinates_deep_copy = deep_copy plain_deep_copy_into

  abbrev pub location_class_reference_deep_copy :
      Option LocationClassReference → KindStore L → Option LocationClassReference × KindStore L
  location_class_reference_deep_copy = deep_copy plain_deep_copy_into

  abbrev pub location_reference_deep_copy :
      Option LocationReference → KindStore L → Option LocationReference × KindStore L
  location_reference_deep_copy = deep_copy plain_deep_copy_into

  abbrev pub parameters_reference_deep_copy :
      Option ParametersReference → KindStore L → Option ParametersReference × KindStore L
  parameters_reference_deep_copy = deep_copy plain_deep_copy_into

  abbrev pub location_spec_deep_copy :
      Option LocationSpecAt → KindStore L → Option LocationSpecAt × KindStore L
  location_spec_deep_copy = deep_copy (location_spec_deep_copy_into L)

  abbrev pub location_status_deep_copy :
      Option StatusAt → KindStore L → Option StatusAt × KindStore L
  location_status_deep_copy = deep_copy (status_deep_copy_into L)

  abbrev pub location_class_spec_deep_copy :
      Option LocationClassSpecAt → KindStore L → Option LocationClassSpecAt × KindStore L
  location_class_spec_deep_copy = deep_copy (location_class_spec_deep_copy_into L)

  abbrev pub location_class_status_deep_copy :
      Option StatusAt → KindStore L → Option StatusAt × KindStore L
  location_class_status_deep_copy = deep_copy (status_deep_copy_into L)

  abbrev pub serving_location_source_deep_copy :
      Option ServingLocationSource → KindStore L → Option ServingLocationSource × KindStore L
  serving_location_source_deep_copy = deep_copy (source_deep_copy_into L)

  abbrev pub serving_location_spec_deep_copy :
      Option ServingLocationSpecAt → KindStore L → Option ServingLocationSpecAt × KindStore L
  serving_location_spec_deep_copy = deep_copy (serving_location_spec_deep_copy_into L)

abbrev ConfigStore : Type 0
ConfigStore = Store Config.Cell

abbrev pub client_deep_copy :
    Option ClientConnectionConfig → ConfigStore → Option ClientConnectionConfig × ConfigStore
client_deep_copy = deep_copy plain_deep_copy_into

abbrev pub readiness_deep_copy :
    Option LocationReadinessConfig → ConfigStore → Option LocationReadinessConfig × ConfigStore
readiness_deep_copy = deep_copy plain_deep_copy_into

abbrev pub resource_deep_copy :
    Option LocationScopedResource → ConfigStore → Option LocationScopedResource × ConfigStore
resource_deep_copy = deep_copy plain_deep_copy_into

abbrev pub tls_deep_copy : Option TlsConfigAt → ConfigStore → Option TlsConfigAt × ConfigStore
tls_deep_copy = deep_copy tls_deep_copy_into

abbrev pub metrics_deep_copy :
    Option MetricsServerConfigAt → ConfigStore → Option MetricsServerConfigAt × ConfigStore
metrics_deep_copy = deep_copy metrics_deep_copy_into

abbrev pub publisher_deep_copy :
    Option LocationPublisherConfigAt → ConfigStore → Option LocationPublisherConfigAt × ConfigStore
publisher_deep_copy = deep_copy publisher_deep_copy_into
