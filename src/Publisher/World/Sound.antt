-- ===== src/Publisher/World/Sound.antt =====
-- An invariant of the hub over any sequence of runs and outside changes.
use locations.Prelude.{String, true, false, Option, none, some, List, [], ◌≡◌, ◌≢◌}
use locations.Prelude.GoMap.{GoMap, index}
use locations.Prelude.Text.Trim.{trim_space}
use locations.Api.{topology_city_code_key}
use locations.Config.{LocationScopedResource}
use locations.Publisher.Client.{Env, Reconciler}
use locations.Publisher.Policy.{location_propagation_policy_name, propagation_policy}
use locations.Publisher.Reconcile.{reconcile}
use locations.Publisher.World.{Copy, View, World}

abbrev topology_of : Option Copy → GoMap
topology_of none = []
topology_of (some c) = c.spec.topology

module _ (scoped : List LocationScopedResource) where
  -- The copy has a city code that is not blank.
  abbrev pub HasCity : Copy → Type 0
  HasCity c = trim_space (index topology_city_code_key c.spec.topology) ≢ ""

  -- Every copy that the publisher owns, and whose deletion was not asked for, has a city code, and its
  -- policy is on the hub.
  abbrev pub IsSound : View → Type 0
  IsSound v =
      (n : String) (c : Copy)
      → v.copies n ≡ some c
      → c.owned ≡ true
      → c.deleting ≡ false
      → HasCity c
        × (v.policies (location_propagation_policy_name n) ≡ some (propagation_policy scoped n))

-- What others may do to the control planes: anything to the source and the clusters, and on the hub
-- anything but to policies and to the content of the copies that the publisher owns. They may delete
-- owned copies, complete a deletion, and set or clear the override and finalizers.
abbrev pub IsOutside : View → View → Type 0
IsOutside v w =
    (w.policies ≡ v.policies)
    × ((n : String) (c : Copy)
        → w.copies n ≡ some c
        → c.owned ≡ true
        → c.deleting ≡ false
        → (d : Copy) × (v.copies n ≡ some d)
          × (d.owned ≡ true)
          × (d.deleting ≡ false)
          × (d.spec ≡ c.spec))

module _ (V : Env) (W : World V) (r : Reconciler) where
  -- A run of the publisher for some name, or a change by others.
  pub data Step (s t : V.State) : Type 0 where
    run : (name : String) → t ≡ (reconcile V r name s).1 → Step s t
    outside : IsOutside (W.view s) (W.view t) → Step s t

  pub data Reaches (s : V.State) : V.State → Type 0 where
    here : Reaches s s
    later : {t u : V.State} → Reaches s t → Step t u → Reaches s u

  abbrev pub Sound : V.State → Type 0
  Sound s = IsSound r.config.location_scoped_resources (W.view s)
