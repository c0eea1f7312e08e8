-- ===== src/Tests/Memory.antt =====
-- A source and a hub in memory, as clients of the publisher.
use locations.Prelude.{String, true, false, none, List, [], ◌∷◌, ◌==◌}
use locations.Prelude.{select, if◌then◌else◌}
use locations.Prelude.Int.{pos}
use locations.Prelude.Effect.{Except, ok, err}
use locations.Prelude.GoMap.{GoMap, index}
use locations.Api.{
  Time, ObjectMeta, Location, ServingLocation, topology_city_code_key,
  serving_location_topology_label,
}
use locations.Publisher.Client.{Env, Cluster, PropagationPolicy, Reconciler, found, object, text}
use locations.Config.{minutes, fifty}
use locations.Publisher.Ownership.{managed_labels}

pub data Failure : Type 0 where
  not_found refused : Failure

pub record Store : Type 0 where
  pub locations : List Location
  pub copies : List ServingLocation
  pub policies : List PropagationPolicy
  pub clusters : List Cluster
  pub clock : Time

abbrev find_location : String → List Location → Except Failure Location
find_location name [] = err not_found
find_location name (l ∷ ls) = if l.meta.name == name then ok l else find_location name ls

abbrev find_copy : String → List ServingLocation → Except Failure ServingLocation
find_copy name [] = err not_found
find_copy name (l ∷ ls) = if l.meta.name == name then ok l else find_copy name ls

abbrev pub without : String → List ServingLocation → List ServingLocation
without name [] = []
without name (l ∷ ls) = let rest = without name ls in if l.meta.name == name then rest else l ∷ rest

abbrev carrying : String → String → List ServingLocation → List ServingLocation
carrying key value = select (λ l. index key l.meta.labels == value)

abbrev pub memory : Env
memory = record {
  State = Store;
  Failure = Failure;
  is_not_found = elim [ not_found ↦ true | refused ↦ false ];
  source_get = λ name s. (find_location name s.locations, s);
  source_list = λ s. (ok s.locations, s);
  source_synced = λ s. (true, s);
  hub_synced = λ s. (true, s);
  hub_get = λ name s. (find_copy name s.copies, s);
  hub_list = λ key value s. (ok (carrying key value s.copies), s);
  hub_clusters = λ s. (ok s.clusters, s);
  hub_apply = λ manager l s. (ok tt, record s { copies = l ∷ without l.meta.name s.copies });
  hub_apply_policy = λ manager p s. (ok tt, record s { policies = p ∷ [] });
  hub_patch = λ old new s. (ok tt, record s { copies = new ∷ without old.meta.name s.copies });
  hub_delete = λ l s. (ok tt, record s { copies = without l.meta.name s.copies });
  hub_delete_policy = λ name s. (ok tt, record s { policies = [] });
  now = λ s. (s.clock, s);
  unmarshal = λ raw. none;
  is_print = λ c. false;
}

abbrev pub named : String → GoMap → GoMap → ObjectMeta
named name labels annotations = record {
  name = name;
  labels = labels;
  annotations = annotations;
  finalizers = [];
  generation = 1;
  deletion_timestamp = none;
  managed_fields = [];
}

abbrev pub city : String → GoMap
city code = (topology_city_code_key, code) ∷ []

abbrev pub place : String → String → Location
place name code = record {
  meta = named name [] [];
  spec = record {
    location_class_ref = record { name = "edge"; project = "" };
    topology = city code;
    coordinates = none;
  };
  status = record { conditions = [] };
}

abbrev pub copy : String → String → GoMap → ServingLocation
copy name code annotations = record {
  meta = named name managed_labels annotations;
  spec = record {
    topology = city code;
    source = record { generation = 1; published_at = pos 100 };
  };
}

-- A Ready cluster that claims a location.
abbrev pub claiming : String → String → Cluster
claiming name location = record {
  name = name;
  labels = (serving_location_topology_label, location) ∷ [];
  conditions = found (object (("type", text "Ready") ∷ ("status", text "True") ∷ []) ∷ []);
}

-- The location "iad" has left the source, and its copy is held.
abbrev pub leaving : Store
leaving = record {
  locations = place "fra" "FRA" ∷ [];
  copies = copy "iad" "IAD" [] ∷ [];
  policies = [];
  clusters = claiming "c1" "fra" ∷ [];
  clock = pos 200;
}

abbrev pub publisher : Reconciler
publisher = record {
  config = record {
    source_kubeconfig_path = "";
    hub_kubeconfig_path = "hub";
    safety_resync_period = minutes 30;
    location_scoped_resources = [];
    client = record { qps = fifty; burst = pos 100 };
  };
  recorder = true;
}
