-- ===== src/Tests/Wiring.antt =====
-- A manager that takes every controller.
use locations.Prelude.{String, none, List, [], ◌∷◌, ◌↔◌, refl}
use locations.Prelude.Effect.{ok}
use locations.Prelude.Trace.{Justified}
use locations.Wiring.Client.{Env, Origin}
use locations.Wiring.Setup.{class_watches, readiness_watches, publisher_watches}
use locations.Wiring.Concerns.{
  Event, Asks, ConcernsPublisher, ConcernsClass, ConcernsReadiness, publisher_watches-Asks_iff,
  class_watches-Asks_iff, readiness_watches-Asks_iff,
}
use locations.Wiring.Filled
use locations.Wiring.Filled.{Controller, setup_with_manager, setup-Filled}
use locations.Tests.Memory.{Failure, place}
use locations.Tests.Classes.{reporting, living, reconciler, class_of}

-- The state is the names of the controllers.
abbrev manager : Env
manager = record {
  reporting = reporting;
  State = List String;
  Failure = Failure;
  ClientOf = String;
  RecorderOf = String;
  ClusterOf = String;
  manager_client = "client";
  event_recorder = λ name. name;
  for_object = λ name. name ∷ [];
  index_field = λ field names s. (ok tt, s);
  complete = λ name watches r s. (ok tt, name ∷ s);
  complete_publisher = λ name watches r s. (ok tt, name ∷ s);
}

publisher_watches-Asks_iff_example :
    Asks
      (publisher_watches manager)
      (Event.policy_changed Origin.hub_cache "location-fra")
      living
      "fra"
    ↔ ConcernsPublisher (Event.policy_changed Origin.hub_cache "location-fra") "fra"
publisher_watches-Asks_iff_example =
    publisher_watches-Asks_iff manager (Event.policy_changed Origin.hub_cache "location-fra") living
      "fra"

class_watches-Asks_iff_example :
    Asks
      (class_watches manager)
      (Event.location_changed Origin.manager_cache (place "fra" "FRA"))
      living
      "edge"
    ↔ ConcernsClass (Event.location_changed Origin.manager_cache (place "fra" "FRA")) "edge"
class_watches-Asks_iff_example =
    class_watches-Asks_iff manager (Event.location_changed Origin.manager_cache (place "fra" "FRA"))
      living "edge" (λ m. refl)

readiness_watches-Asks_iff_example :
    Asks
      (readiness_watches manager reconciler)
      (Event.class_changed Origin.manager_cache (class_of none))
      living
      "fra"
    ↔ ConcernsReadiness manager living
        (Event.class_changed Origin.manager_cache (class_of none))
        "fra"
readiness_watches-Asks_iff_example =
    readiness_watches-Asks_iff manager reconciler
      (Event.class_changed Origin.manager_cache (class_of none)) living "fra" (λ m. refl)

setup-Filled_example :
    Justified
      (Filled.Filled manager)
      []
      (setup_with_manager manager
        (Controller.location_class (record { client = none; recorder = none }))
        []).2
setup-Filled_example =
    setup-Filled manager (Controller.location_class (record { client = none; recorder = none })) []
