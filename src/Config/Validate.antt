-- ===== src/Config/Validate.antt =====
-- `Enabled` and `Validate` of the three configurations.
pub mod Accepts
use locations.Prelude.{
  ℕ, suc, ◌+◌, String, Option, none, some, Bool, true, false, not, List, [], ◌∷◌, ◌++◌,
}
use locations.Prelude.{◌==◌, ◌||◌, if◌then◌else◌}
use locations.Prelude.Int.{pos, ltb_ℤ}
use locations.Prelude.Text.Trim.{trim_space}
use locations.Prelude.Text.Prefix.{text_contains}
use locations.Config.{
  LocationScopedResource, LocationPublisherConfig, LocationReadinessConfig, LocationOperator,
}

-- One of the errors that `errors.Join` joins.
pub data PublisherProblem : Type 0 where
  negative_resync : PublisherProblem
  incomplete_resource : ℕ → PublisherProblem

pub data ConfigError : Type 0 where
  publisher : List PublisherProblem → ConfigError
  -- the controller's name is not domain-qualified
  readiness : String → ConfigError

unfoldable pub publisher_enabled : LocationPublisherConfig → Bool
publisher_enabled c = not (c.hub_kubeconfig_path == "")

unfoldable pub is_incomplete : LocationScopedResource → Bool
is_incomplete s = s.api_version == "" || s.kind == "" || s.location_label == ""

-- The loop over the resources, from an index on.
unfoldable pub resource_problems : ℕ → List LocationScopedResource → List PublisherProblem
resource_problems i [] = []
resource_problems i (s ∷ rest) =
    let more = resource_problems (suc i) rest in
    if is_incomplete s then incomplete_resource i ∷ more else more

-- `(*LocationPublisherConfig).Validate`; no problem is a nil error
unfoldable pub publisher_problems : LocationPublisherConfig → List PublisherProblem
unfolding publisher_enabled
publisher_problems c =
    let resync = if ltb_ℤ c.safety_resync_period (pos 0) then negative_resync ∷ [] else [] in
    if not (publisher_enabled c)
    then []
    else resync ++ resource_problems 0 c.location_scoped_resources

unfoldable pub readiness_enabled : LocationReadinessConfig → Bool
readiness_enabled c = not (trim_space c.controller_name == "")

-- `(*LocationReadinessConfig).Validate`; `none` is a nil error
unfoldable pub readiness_problem : LocationReadinessConfig → Option ConfigError
unfolding readiness_enabled
readiness_problem c =
    if not (readiness_enabled c)
    then none
    else if not (text_contains "/" c.controller_name)
    then some (readiness c.controller_name)
    else none

abbrev pub first_problem : List PublisherProblem → Option ConfigError → Option ConfigError
first_problem [] rest = rest
first_problem (p ∷ ps) rest = some (publisher (p ∷ ps))

-- `(*LocationOperator).Validate`
unfoldable pub validate : LocationOperator → Option ConfigError
unfolding publisher_problems readiness_problem
validate c =
    first_problem (publisher_problems c.location_publisher) (readiness_problem c.location_readiness)
