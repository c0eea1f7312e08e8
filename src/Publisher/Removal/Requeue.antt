-- ===== src/Publisher/Removal/Requeue.antt =====
-- How long the publisher waits before it looks at a retained copy again.
use locations.Prelude.{true, false, ◌≡◌, ◌⊎◌, arith}
use locations.Prelude.Int.{pos, ltb_ℤ}
use locations.Publisher.Client.{Reconciler}
use locations.Publisher.Ownership.{removal_blocked_requeue}
use locations.Publisher.Removal.{blocked_requeue}

-- A blocked removal is tried again after a positive time of at most five minutes, and after no more
-- than the configured resync period where that is positive.
pub blocked_requeue_bounds :
    (r : Reconciler)
    → (ltb_ℤ (pos 0) (blocked_requeue r) ≡ true)
      × (ltb_ℤ removal_blocked_requeue (blocked_requeue r) ≡ false)
      × ((ltb_ℤ (pos 0) r.config.safety_resync_period ≡ false)
          ⊎ (ltb_ℤ r.config.safety_resync_period (blocked_requeue r) ≡ false))
unfolding blocked_requeue
blocked_requeue_bounds r = ground arith
