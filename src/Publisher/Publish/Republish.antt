-- ===== src/Publisher/Publish/Republish.antt =====
-- When the time of publication is kept: publishing a Location again that has not changed.
use locations.Prelude.{String, true, none, some, [], ◌∷◌, arith}
use locations.Prelude.{◌≡◌, refl, ◌==◌, eq_iff, eq_refl, if◌then◌else◌}
use locations.Prelude.GoMap.{GoMap, index, lookup}
use locations.Prelude.Text.Trim.{trim_space}
use locations.Api.{Time, Location, topology_city_code_key}
use locations.Publisher.Publish.{trimmed_city_code, reads_alike, keep_published_at, desired_copy}

-- Each key of a Go map is there once.
abbrev pub HasUniqueKeys : GoMap → Type 0
HasUniqueKeys [] = Unit
HasUniqueKeys ((k, v) ∷ m) = (lookup k m ≡ none) × HasUniqueKeys m

-- Every entry of the first map is what the second map holds under its key.
abbrev Extends : GoMap → GoMap → Type 0
Extends [] n = Unit
Extends ((k, v) ∷ m) n = (lookup k n ≡ some v) × Extends m n

Extends-cons :
    (m n : GoMap) (k v : String) → lookup k m ≡ none → Extends m n → Extends m ((k, v) ∷ n)
Extends-cons [] n k v h e = tt
Extends-cons ((j, w) ∷ m) n k v h (e, es) =
    (ground (arith, eq_iff k j, eq_iff j k), Extends-cons m n k v (ground (arith, eq_iff j k)) es)

Extends-refl : (m : GoMap) → HasUniqueKeys m → Extends m m
Extends-refl [] h = tt
Extends-refl ((k, v) ∷ m) (fresh, h) =
    (ground (arith, eq_refl k), Extends-cons m m k v fresh (Extends-refl m h))

reads_alike_of_Extends : (m n : GoMap) → Extends m n → reads_alike m n ≡ true
reads_alike_of_Extends [] n h = refl
reads_alike_of_Extends ((k, v) ∷ m) n (e, h) =
    ground (arith, eq_refl v, reads_alike_of_Extends m n h)

-- For a Location whose topology has each key once, the copy that `publish` applied at some time counts
-- as unchanged at the next run over the same Location exactly when the Location's city code has no
-- space around it: then the time of publication stays, and else it is the time of that run.
pub keep_published_at-desired_copy :
    (l : Location) (before now : Time)
    → HasUniqueKeys l.spec.topology
    → keep_published_at now (some (desired_copy l before)) l (trimmed_city_code l) ≡ (
        if index topology_city_code_key l.spec.topology
          == trim_space (index topology_city_code_key l.spec.topology)
        then before
        else now)
unfolding keep_published_at desired_copy trimmed_city_code
keep_published_at-desired_copy l before now h =
    ground (arith, reads_alike_of_Extends l.spec.topology l.spec.topology (Extends-refl _ h))
