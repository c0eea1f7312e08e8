-- ===== src/Publisher/Reconcile.antt =====
-- `Reconcile` of the publisher, and `refreshFleetMetrics`, with which each run ends.
use locations.Prelude.{String, Bool, false, not, List, []}
use locations.Prelude.{◌==◌, count_if, if◌then◌else◌}
use locations.Prelude.Int.{pos}
use locations.Prelude.Effect.{Except, ok, err, pure, raise, query, attempt, wrap, ◌>>=◌, ◌>>◌}
use locations.Prelude.GoMap.{contains}
use locations.Api.{Location, ServingLocation}
use locations.Metrics.{Gauge, set}
use locations.Publisher.Client.{Env, Call, Error, M, Reconciler, Result, request, metric_call}
use locations.Publisher.Ownership.{location_removal_blocked_annotation}
use locations.Publisher.Hub.{list_published}
use locations.Publisher.Publish.{trimmed_city_code, publish}
use locations.Publisher.Removal.{remove}

-- The tests by which the loops of `refreshFleetMetrics` count.
unfoldable pub is_publishable : Location → Bool
is_publishable location = not (trimmed_city_code location == "")

unfoldable pub is_retained : ServingLocation → Bool
is_retained published = contains location_removal_blocked_annotation published.meta.annotations

unfoldable pub is_live : ServingLocation → Bool
unfolding is_retained
is_live published = not (is_retained published)

module _ (V : Env) where
  unfoldable pub set_fleet_metrics : List Location → List ServingLocation → M V (Unit {0})
  set_fleet_metrics locations published =
      metric_call V (set Gauge.locations_publishable [] (pos (count_if is_publishable locations)))
      >> metric_call V (set Gauge.locations_published [] (pos (count_if is_live published)))
      >> metric_call V (set Gauge.locations_retained [] (pos (count_if is_retained published)))

  unfoldable pub count_fleet : M V (Unit {0})
  count_fleet = do
    locations ← request V Call.listed_locations Error.listing_locations V.source_list
    published ← list_published V
    set_fleet_metrics locations published

  -- An error ends the count and is only logged.
  unfoldable pub refresh_fleet_metrics : M V (Unit {0})
  unfolding count_fleet
  refresh_fleet_metrics = attempt count_fleet >>= λ _. pure tt

  module _ (r : Reconciler) where
    -- Publishes or removes, by whether the source has the location.
    unfoldable pub act : String → Except V.Failure Location → M V Result
    act name (ok location) = publish V r location
    act name (err e) =
        if V.is_not_found e then remove V r name else raise (Error.reading_location name e)

    -- Refreshes the fleet's metrics after an action, and returns the action's answer.
    unfoldable pub then_refresh : Except (Error V.Failure) Result → M V Result
    then_refresh answer = refresh_fleet_metrics >> wrap (λ e. e) answer

    abbrev read_failed : Except V.Failure Location → Bool
    read_failed (ok location) = false
    read_failed (err e) = not (V.is_not_found e)

    unfoldable pub reconcile : String → M V Result
    reconcile name = do
      found ← query (Call.got_location name) (V.source_get name)
      if read_failed found then act name found else attempt (act name found) >>= then_refresh
