-- ===== src/Class/Index/Names.antt =====
-- Which class a Location counts for.
use locations.Prelude.{String, List, [], ◌∷◌, arith, ◌≡◌, ◌≢◌, ◌↔◌}
use locations.Prelude.{eq_iff}
use locations.Prelude.Text.Trim.{trim_space}
use locations.Api.{Location}
use locations.Class.Index.{class_names}

-- A Location is indexed under a name exactly when its reference has a blank project and that name,
-- up to space around it, and the name is not empty.
pub class_names_iff :
    (l : Location) (n : String)
    → (class_names l ≡ n ∷ []) ↔ (
        (trim_space l.spec.location_class_ref.project ≡ "")
        × (trim_space l.spec.location_class_ref.name ≡ n)
        × (n ≢ ""))
unfolding class_names
class_names_iff l n =
    let project = trim_space l.spec.location_class_ref.project in
    let name = trim_space l.spec.location_class_ref.name in
    (
      λ h. (
        ground (arith, eq_iff project "", eq_iff name ""),
        ground (arith, eq_iff project "", eq_iff name ""),
        ground (arith, eq_iff project "", eq_iff name ""),
      ),
      λ h. ground (arith, eq_iff project "", eq_iff name ""),
    )

-- No Location is indexed under two names.
pub class_names-single :
    (l : Location) (n : String) (rest : List String)
    → class_names l ≡ n ∷ rest
    → class_names l ≡ n ∷ []
unfolding class_names
class_names-single l n rest h = ground (
  arith,
  eq_iff (trim_space l.spec.location_class_ref.project) "",
  eq_iff (trim_space l.spec.location_class_ref.name) "",
)
