-- ===== src/Identity/Resolved.antt =====
-- When a cell can name its location, and when it reports a mismatch.
use locations.Prelude.{List, [], ◌∷◌, arith, ◌≡◌, ◌≢◌, ◌↔◌, refl}
use locations.Prelude.{eq_iff, length}
use locations.Prelude.Effect.{ok, err}
use locations.Api.{ServingLocation}
use locations.Identity.{no_identity, ambiguous, LocationConfig, LocationUnresolved, Error, resolve}

module _ {F : Type 0} where
  -- A cell to which copies were listed cannot name its location exactly when no location is
  -- configured and the number of delivered copies is not one.
  pub resolve-unresolved_iff :
      (configured : LocationConfig) (items : List ServingLocation)
      → ((u : LocationUnresolved) × (resolve {F = F} configured (ok items)
            ≡ err (Error.unresolved u)))
        ↔ ((configured.name ≡ "") × (length items ≢ 1))
  unfolding resolve
  resolve-unresolved_iff configured [] = (
    λ h. (ground (arith, eq_iff configured.name ""), λ e. absurd (omega (arith, e))),
    λ h. (no_identity, rw (h.0) refl),
  )
  resolve-unresolved_iff configured (a ∷ []) = (λ h. ground arith, λ h. absurd (h.1 refl))
  resolve-unresolved_iff configured (a ∷ b ∷ r) = (
    λ h. (ground (arith, eq_iff configured.name ""), λ e. absurd (omega (arith, e))),
    λ h. (ambiguous (a ∷ b ∷ r), rw (h.0) refl),
  )
