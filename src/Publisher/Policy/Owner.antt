-- ===== src/Publisher/Policy/Owner.antt =====
-- A policy's name leads back to its location, and no other name does.
use Prim.Native.String.{count}
use text.Mathlib.TextLemmas.{length-append}
use locations.Prelude.{String, [], ◌∷◌, arith}
use locations.Prelude.{◌≡◌, ◌≢◌, ◌↔◌, ap, ◌<>◌, eq_iff}
use locations.Prelude.Text.Prefix.{trim_prefix, trim_prefix-append, trim_prefix_cases}
use locations.Publisher.Policy.{location_propagation_policy_name, enqueue_policy_owner}

longer-ne : (n : String) → ("location-" <> n) ≢ n
longer-ne n e = absurd (omega (arith, ap count e, length-append "location-" n))

enqueue_of_name : (n : String) → enqueue_policy_owner (location_propagation_policy_name n) ≡ n ∷ []
unfolding enqueue_policy_owner location_propagation_policy_name
enqueue_of_name n = ground (
  arith,
  trim_prefix-append "location-" n,
  longer-ne n,
  eq_iff (trim_prefix ("location-" <> n) "location-") ("location-" <> n),
)

name_of_enqueued :
    (policy n : String)
    → enqueue_policy_owner policy ≡ n ∷ []
    → policy ≡ location_propagation_policy_name n
unfolding enqueue_policy_owner location_propagation_policy_name
name_of_enqueued policy n h =
    ground
      (arith, trim_prefix_cases "location-" policy, eq_iff (trim_prefix policy "location-") policy)

-- A change of a policy asks for the reconciliation of a location exactly when the policy has the
-- name that the publisher gives to that location's policy.
pub enqueue_policy_owner_iff :
    (policy n : String)
    → (enqueue_policy_owner policy ≡ n ∷ []) ↔ (policy ≡ location_propagation_policy_name n)
enqueue_policy_owner_iff policy n = (name_of_enqueued policy n, λ e. rw e (enqueue_of_name n))
