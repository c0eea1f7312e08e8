-- ===== src/Config/Defaults/Resync.antt =====
-- The resync period that the publisher runs with.
use locations.Prelude.{String, none, true, arith, ◌≡◌}
use locations.Prelude.Int.{pos, ltb_ℤ}
use locations.Config.{LocationOperator}
use locations.Config.Defaults.{set_object_defaults, or_int}
use locations.Config.Validate.{validate, publisher_enabled}

-- A configuration that passes validation after its defaults are set, and that publishes, has a positive
-- resync period.
pub set_object_defaults_resync :
    (serving_certs : String) (c : LocationOperator)
    → validate (set_object_defaults serving_certs c) ≡ none
    → publisher_enabled c.location_publisher ≡ true
    → ltb_ℤ (pos 0) (set_object_defaults serving_certs c).location_publisher.safety_resync_period
      ≡ true
unfolding set_object_defaults validate publisher_enabled or_int
set_object_defaults_resync serving_certs c valid enabled = ground arith
