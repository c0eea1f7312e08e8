-- ===== src/Publisher/World/Orphan.antt =====
-- A policy without its copy: what a removal leaves whose second delete has failed.
use locations.Prelude.{String, none, ◌≡◌, refl, ◌∙◌}
use locations.Publisher.Client.{Env, Reconciler}
use locations.Publisher.World.{World}
use locations.Publisher.World.Spec.{next}
use locations.Publisher.World.Settles.{view_after, view_after-next}

module _ (V : Env) (W : World V) (r : Reconciler) (name : String) where
  -- Where the source has no Location and the hub no copy of a name, a run for that name that meets no
  -- failure changes nothing on the control planes, so that the name's policy, if the hub still
  -- has it, stays.
  pub reconcile-leaves_orphan :
      (s : V.State)
      → (W.view s).sources name ≡ none
      → (W.view s).copies name ≡ none
      → view_after V W r name s ≡ W.view s
  unfolding next
  reconcile-leaves_orphan s gone bare =
      let (clock, e) = view_after-next V W r name s in e ∙ rw (gone, bare) refl
