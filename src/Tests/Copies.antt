-- ===== src/Tests/Copies.antt =====
-- Objects in small stores, and their copies.
use locations.Prelude.{true, Option, none, some, [], ◌≡◌, refl, arith, if◌then◌else◌, eqb}
use locations.Api.{ObjectMeta}
use locations.Config.{LocationOperator}
use locations.Deepcopy.Store.{Store}
use locations.Deepcopy.Store.Agree.{Standing, IsCopier}
use locations.Deepcopy.Store.Kept.{OptionAt}
use locations.Deepcopy.Operator as Config
use locations.Deepcopy.Operator.{LocationOperatorAt, operator_deep_copy_object}
use locations.Deepcopy.Separate.{OperatorAt, operator_deep_copy_object_separates}
use locations.Deepcopy.Kinds.{
  Library, Cell, topology, conditions, LocationAt, LocationClassAt, ServingLocationAt, KindStore,
  location_deep_copy_object, location_class_deep_copy_object, serving_location_deep_copy_object,
}
use locations.Deepcopy.Objects.{
  LocationStands, LocationClassStands, ServingLocationStands, location_deep_copy_object_separates,
  location_class_deep_copy_object_separates, serving_location_deep_copy_object_separates,
}
use locations.Tests.Memory.{place, copy, publisher}
use locations.Tests.Classes.{class_of}

-- Metadata without pointers.
abbrev library : Library
library = record {
  Metadata = ObjectMeta;
  Foreign = Unit {0};
  condition_copy = λ c. c;
  time_copy = λ t. t;
}

abbrev MetaStands : Standing (Cell (Unit {0})) ObjectMeta ObjectMeta
MetaStands lo hi h x v = x ≡ v

abbrev meta_into : ObjectMeta → KindStore library → ObjectMeta × KindStore library
meta_into x h = (x, h)

meta-IsCopier : IsCopier MetaStands meta_into
meta-IsCopier = record {
  moves = λ lo hi lo' hi' g h x v k l same e. e;
  copies = λ lo hi h x v k e. (omega arith, λ a i j. refl, e);
}

-- One cell, at 0.
abbrev one_cell : {C : Type 0} → C → Store C
one_cell c = record { next = 1; cells = λ a. if eqb a 0 then some c else none }

abbrev located : KindStore library
located = one_cell (topology (place "fra" "FRA").spec.topology)

abbrev location_at : Option (LocationAt ObjectMeta)
location_at = some (record {
  meta = (place "fra" "FRA").meta;
  spec = record {
    location_class_ref = (place "fra" "FRA").spec.location_class_ref;
    topology = some 0;
    coordinates = none;
  };
  status = record { conditions = none };
})

-- The store after the copy, and that store once others have cleared the original's map.
abbrev located_copy : KindStore library
located_copy = (location_deep_copy_object library meta_into location_at located).1

abbrev located_cleared : KindStore library
located_cleared = record located_copy {
  cells = λ a. if eqb a 0 then some (topology []) else located_copy.cells a;
}

location_deep_copy_object_separates_example :
    OptionAt
      (LocationStands library MetaStands meta_into)
      1
      located_copy.next
      located_cleared
      (location_deep_copy_object library meta_into location_at located).0
      (some (place "fra" "FRA"))
    × OptionAt
        (LocationStands library MetaStands meta_into)
        0
        1
        located_copy
        location_at
        (some (place "fra" "FRA"))
location_deep_copy_object_separates_example =
    location_deep_copy_object_separates library MetaStands meta_into meta-IsCopier (λ c. refl)
      located located_cleared located_copy location_at (some (place "fra" "FRA"))
      (
        refl,
        (
          (
            (
              (
                some (topology (place "fra" "FRA").spec.topology),
                (omega arith, omega arith, refl),
                refl,
              ),
              (none, tt, refl),
            ),
            refl,
          ),
          (none, tt, refl),
        ),
      )
      (λ a i j. ground (arith, i)) (λ a i j. refl)

abbrev class_at : Option (LocationClassAt ObjectMeta)
class_at = some (record {
  meta = (class_of none).meta;
  spec = record { controller_name = "milo.io/edge"; parameters_ref = none };
  status = record { conditions = some 0 };
})

abbrev classed : KindStore library
classed = one_cell (conditions [])

location_class_deep_copy_object_separates_example :
    OptionAt
      (LocationClassStands library MetaStands meta_into)
      1
      (location_class_deep_copy_object library meta_into class_at classed).1.next
      (location_class_deep_copy_object library meta_into class_at classed).1
      (location_class_deep_copy_object library meta_into class_at classed).0
      (some (class_of none))
    × OptionAt
        (LocationClassStands library MetaStands meta_into)
        0
        1
        (location_class_deep_copy_object library meta_into class_at classed).1
        class_at
        (some (class_of none))
location_class_deep_copy_object_separates_example =
    location_class_deep_copy_object_separates library MetaStands meta_into meta-IsCopier (λ c. refl)
      classed (location_class_deep_copy_object library meta_into class_at classed).1
      (location_class_deep_copy_object library meta_into class_at classed).1 class_at
      (some (class_of none))
      (
        refl,
        (((none, tt, refl), refl), (some (conditions []), (omega arith, omega arith, refl), refl)),
      )
      (λ a i j. refl) (λ a i j. refl)

abbrev copy_at : Option (ServingLocationAt ObjectMeta)
copy_at = some (record {
  meta = (copy "fra" "FRA" []).meta;
  spec = record { topology = some 0; source = (copy "fra" "FRA" []).spec.source };
})

serving_location_deep_copy_object_separates_example :
    OptionAt
      (ServingLocationStands library MetaStands meta_into)
      1
      (serving_location_deep_copy_object library meta_into copy_at located).1.next
      (serving_location_deep_copy_object library meta_into copy_at located).1
      (serving_location_deep_copy_object library meta_into copy_at located).0
      (some (copy "fra" "FRA" []))
    × OptionAt
        (ServingLocationStands library MetaStands meta_into)
        0
        1
        (serving_location_deep_copy_object library meta_into copy_at located).1
        copy_at
        (some (copy "fra" "FRA" []))
serving_location_deep_copy_object_separates_example =
    serving_location_deep_copy_object_separates library MetaStands meta_into meta-IsCopier
      (λ t. refl) located (serving_location_deep_copy_object library meta_into copy_at located).1
      (serving_location_deep_copy_object library meta_into copy_at located).1 copy_at
      (some (copy "fra" "FRA" []))
      (
        refl,
        (
          (
            some (topology (copy "fra" "FRA" []).spec.topology),
            (omega arith, omega arith, refl),
            refl,
          ),
          refl,
        ),
      )
      (λ a i j. refl) (λ a i j. refl)

abbrev settings : Option LocationOperator
settings = some (record {
  metrics_server = record {
    secure_serving = some true;
    bind_address = "0";
    tls = record { secret_ref = none; cert_dir = ""; cert_name = "tls.crt"; key_name = "tls.key" };
  };
  kubeconfig_path = "";
  location_publisher = publisher.config;
  location_readiness = record { controller_name = "milo.io/edge" };
})

abbrev settings_at : Option LocationOperatorAt
settings_at = some (record {
  metrics_server = record {
    secure_serving = some 0;
    bind_address = "0";
    tls = record { secret_ref = none; cert_dir = ""; cert_name = "tls.crt"; key_name = "tls.key" };
  };
  kubeconfig_path = "";
  location_publisher = record {
    source_kubeconfig_path = publisher.config.source_kubeconfig_path;
    hub_kubeconfig_path = publisher.config.hub_kubeconfig_path;
    safety_resync_period = publisher.config.safety_resync_period;
    location_scoped_resources = none;
    client = publisher.config.client;
  };
  location_readiness = record { controller_name = "milo.io/edge" };
})

abbrev set_up : Store Config.Cell
set_up = one_cell (Config.Cell.flag true)

operator_deep_copy_object_separates_example :
    OptionAt OperatorAt 1
      (operator_deep_copy_object settings_at set_up).1.next
      (operator_deep_copy_object settings_at set_up).1
      (operator_deep_copy_object settings_at set_up).0
      settings
    × OptionAt OperatorAt 0 1 (operator_deep_copy_object settings_at set_up).1 settings_at settings
operator_deep_copy_object_separates_example =
    operator_deep_copy_object_separates set_up (operator_deep_copy_object settings_at set_up).1
      (operator_deep_copy_object settings_at set_up).1 settings_at settings
      (
        (
          (((omega arith, omega arith, refl), (tt, (refl, refl, refl))), refl),
          ((none, tt, refl), (refl, refl, refl, refl)),
        ),
        (refl, refl),
      )
      (λ a i j. refl) (λ a i j. refl)
