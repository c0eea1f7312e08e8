-- ===== src/Api.antt =====
-- api/v1alpha1: the kinds of the API group, with the fields of the Kubernetes types that they embed
-- as far as the controllers read or write them.
use locations.Prelude.{ℕ, String, Option, List, Bool}
use locations.Prelude.Int.{ℤ, negsuc, eqb_ℤ}
use locations.Prelude.GoMap.{GoMap, index}

-- A `metav1.Time` as its Unix seconds, the precision in which it is serialised.
abbrev pub Time : Type 0
Time = ℤ

-- The zero `time.Time`, the first of January of the year 1.
abbrev pub zero_time : Time
zero_time = negsuc 62135596799

-- `(*metav1.Time).IsZero`, of nil too
abbrev pub is_zero_time : Option Time → Bool
is_zero_time Option.none = Bool.true
is_zero_time (Option.some t) = eqb_ℤ t zero_time

-- metav1.ManagedFieldsEntry; the raw fields are JSON text
pub record ManagedFieldsEntry : Type 0 where
  pub manager : String
  pub operation : String
  pub fields_v1 : Option String

-- metav1.ObjectMeta. Every kind here is cluster-scoped, so there is no namespace.
pub record ObjectMeta : Type 0 where
  pub name : String
  pub labels : GoMap
  pub annotations : GoMap
  pub finalizers : List String
  pub generation : ℕ
  pub deletion_timestamp : Option Time
  pub managed_fields : List ManagedFieldsEntry

-- metav1.Condition
pub record Condition : Type 0 where
  pub type : String
  pub status : String
  pub observed_generation : ℕ
  pub last_transition_time : Time
  pub reason : String
  pub message : String

-- metav1.ConditionTrue and metav1.ConditionFalse
abbrev pub condition_true : String
condition_true = "True"

abbrev pub condition_false : String
condition_false = "False"

pub record LocationClassReference : Type 0 where
  pub name : String
  pub project : String

pub record Coordinates : Type 0 where
  pub latitude : String
  pub longitude : String

pub record LocationSpec : Type 0 where
  pub location_class_ref : LocationClassReference
  pub topology : GoMap
  pub coordinates : Option Coordinates

pub record LocationStatus : Type 0 where
  pub conditions : List Condition

pub record Location : Type 0 where
  pub meta : ObjectMeta
  pub spec : LocationSpec
  pub status : LocationStatus

pub record LocationReference : Type 0 where
  pub name : String

abbrev pub location_condition_ready : String
location_condition_ready = "Ready"

abbrev pub location_reason_ready : String
location_reason_ready = "Ready"

abbrev pub location_reason_location_class_not_found : String
location_reason_location_class_not_found = "LocationClassNotFound"

abbrev pub location_reason_missing_topology : String
location_reason_missing_topology = "MissingTopology"

pub record ParametersReference : Type 0 where
  pub group : String
  pub kind : String
  pub name : String

pub record LocationClassSpec : Type 0 where
  pub controller_name : String
  pub parameters_ref : Option ParametersReference

pub record LocationClassStatus : Type 0 where
  pub conditions : List Condition

pub record LocationClass : Type 0 where
  pub meta : ObjectMeta
  pub spec : LocationClassSpec
  pub status : LocationClassStatus

abbrev pub location_class_condition_accepted : String
location_class_condition_accepted = "Accepted"

abbrev pub location_class_reason_accepted : String
location_class_reason_accepted = "Accepted"

abbrev pub topology_city_code_key : String
topology_city_code_key = "topology.datum.net/city-code"

abbrev pub serving_location_topology_label : String
serving_location_topology_label = "topology.datum.net/location"

pub record ServingLocationSource : Type 0 where
  pub generation : ℕ
  pub published_at : Time

pub record ServingLocationSpec : Type 0 where
  pub topology : GoMap
  pub source : ServingLocationSource

pub record ServingLocation : Type 0 where
  pub meta : ObjectMeta
  pub spec : ServingLocationSpec

-- `(*ServingLocation).CityCode`
abbrev pub city_code : ServingLocation → String
city_code l = index topology_city_code_key l.spec.topology

-- GroupVersion.String()
abbrev pub group_version : String
group_version = "locations.miloapis.com/v1alpha1"
