-- ===== src/Class/Index.antt =====
-- `IndexLocationsByClass`, and the requests that the index gives rise to.
pub mod Names
use locations.Prelude.{String, List, [], ◌∷◌, ◌==◌, not, if◌then◌else◌}
use locations.Prelude.Text.Trim.{trim_space}
use locations.Api.{Location}

-- A `client.Object`: a Location, or another kind.
pub data Object : Type 0 where
  location : Location → Object
  other : Object

abbrev pub location_class_finalizer : String
location_class_finalizer = "location-exists-finalizer.locations.miloapis.com"

abbrev pub location_class_ref_index : String
location_class_ref_index = "spec.locationClassRef.name"

-- `IndexLocationsByClass` of a Location
unfoldable pub class_names : Location → List String
class_names l =
    let name = trim_space l.spec.location_class_ref.name in
    if not (trim_space l.spec.location_class_ref.project == "")
    then []
    else if name == ""
    then []
    else name ∷ []

unfoldable pub index_locations_by_class : Object → List String
unfolding class_names
index_locations_by_class other = []
index_locations_by_class (location l) = class_names l

-- the names of the requests that the loop of `enqueueLocalClass` appends
abbrev pub requests_for : List String → List String
requests_for [] = []
requests_for (name ∷ names) = name ∷ requests_for names

unfoldable pub enqueue_local_class : Object → List String
unfolding index_locations_by_class
enqueue_local_class obj = requests_for (index_locations_by_class obj)
