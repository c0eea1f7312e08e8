-- ===== src/Config/Validate/Accepts.antt =====
-- Which configurations the operator accepts.
use locations.Prelude.{ℕ, suc, true, false, Option, none, List, [], ◌∷◌, arith}
use locations.Prelude.{◌≡◌, ◌≢◌, ◌↔◌, ◌⊎◌, refl, Bool-cases, eq_iff, All}
use locations.Prelude.Int.{pos, ltb_ℤ}
use locations.Prelude.Text.Trim.{trim_space}
use locations.Prelude.Text.Prefix.{text_contains}
use locations.Config.{
  LocationScopedResource, LocationPublisherConfig, LocationReadinessConfig, LocationOperator,
}
use locations.Config.Validate.{
  validate, is_incomplete, resource_problems, publisher_problems, publisher_enabled,
  readiness_problem, readiness_enabled, first_problem, PublisherProblem, ConfigError,
}

-- All three texts of a resource are there.
abbrev pub IsComplete : LocationScopedResource → Type 0
IsComplete s = (s.api_version ≢ "") × (s.kind ≢ "") × (s.location_label ≢ "")

resource_problems-eq-nil :
    (i : ℕ) (l : List LocationScopedResource) → (resource_problems i l ≡ []) ↔ All IsComplete l
unfolding resource_problems is_incomplete
resource_problems-eq-nil i [] = (λ _. tt, λ _. refl)
resource_problems-eq-nil i (s ∷ l) = ground (
  arith,
  resource_problems-eq-nil (suc i) l,
  eq_iff s.api_version "",
  eq_iff s.kind "",
  eq_iff s.location_label "",
)

publisher_problems-eq-nil :
    (c : LocationPublisherConfig)
    → (publisher_problems c ≡ []) ↔ (
        (c.hub_kubeconfig_path ≡ "")
        ⊎ ((ltb_ℤ c.safety_resync_period (pos 0) ≡ false)
            × All IsComplete c.location_scoped_resources))
unfolding publisher_problems publisher_enabled
publisher_problems-eq-nil c = ground (
  arith,
  resource_problems-eq-nil 0 c.location_scoped_resources,
  Bool-cases (ltb_ℤ c.safety_resync_period (pos 0)),
  eq_iff c.hub_kubeconfig_path "",
)

readiness_problem-eq-none :
    (c : LocationReadinessConfig)
    → (readiness_problem c ≡ none)
      ↔ ((trim_space c.controller_name ≡ "") ⊎ (text_contains "/" c.controller_name ≡ true))
unfolding readiness_problem readiness_enabled
readiness_problem-eq-none c = ground (
  arith,
  Bool-cases (text_contains "/" c.controller_name),
  eq_iff (trim_space c.controller_name) "",
)

first_problem-eq-none :
    (ps : List PublisherProblem) (r : Option ConfigError)
    → (first_problem ps r ≡ none) ↔ ((ps ≡ []) × (r ≡ none))
first_problem-eq-none [] r = (λ h. (refl, h), λ h. h.1)
first_problem-eq-none (p ∷ ps) r = (λ h. cc, λ h. cc)

-- A configuration is accepted exactly when the publisher is off, or its resync period is not negative
-- and all its resources are complete, and readiness reporting is off, or its controller name has
-- a slash.
pub validate_iff :
    (c : LocationOperator)
    → (validate c ≡ none) ↔ (
        ((c.location_publisher.hub_kubeconfig_path ≡ "")
          ⊎ ((ltb_ℤ c.location_publisher.safety_resync_period (pos 0) ≡ false)
              × All IsComplete c.location_publisher.location_scoped_resources))
        × ((trim_space c.location_readiness.controller_name ≡ "")
            ⊎ (text_contains "/" c.location_readiness.controller_name ≡ true)))
unfolding validate
validate_iff c =
    let parts =
      first_problem-eq-none (publisher_problems c.location_publisher)
        (readiness_problem c.location_readiness) in
    ground (
      arith,
      parts,
      publisher_problems-eq-nil c.location_publisher,
      readiness_problem-eq-none c.location_readiness,
    )
