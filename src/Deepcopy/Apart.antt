-- ===== src/Deepcopy/Apart.antt =====
-- A copy of an object has the same content, and shares nothing with the original.
use locations.Prelude.{Option, none, some, List, [], ◌∷◌, map, ◌≡◌, refl, ap}
use locations.Prelude.GoMap.{GoMap}
use locations.Api.{
  Time, Condition, Coordinates, ParametersReference, LocationSpec, LocationClassSpec,
  ServingLocationSpec,
}
use locations.Deepcopy.Store.{Address, copy_pointer, copy_cell}
use locations.Deepcopy.Store.Agree.{Standing, IsCopier, Both, in_turn-Copied}
use locations.Deepcopy.Store.Kept.{Shown, Shown-IsCopier, paired-IsCopier}
use locations.Deepcopy.Kinds.{
  Library, Cell, topology, coordinates, parameters, conditions, foreign, LocationSpecAt, StatusAt,
  LocationClassSpecAt, ServingLocationSpecAt, KindStore, location_spec_deep_copy_into,
  copied_conditions, copied_cell, copy_conditions, status_deep_copy_into,
  location_class_spec_deep_copy_into, source_deep_copy_into, serving_location_spec_deep_copy_into,
}

module _ {X : Type 0} where
  -- A nil map and a map of no entries are both the empty map.
  abbrev pub IsMap : Option (Cell X) → GoMap → Type 0
  IsMap none m = m ≡ []
  IsMap (some (topology k)) m = k ≡ m
  IsMap (some _) m = ⊥

  abbrev pub IsConditions : Option (Cell X) → List Condition → Type 0
  IsConditions none l = l ≡ []
  IsConditions (some (conditions k)) l = k ≡ l
  IsConditions (some _) l = ⊥

  abbrev pub IsCoordinates : Option (Cell X) → Option Coordinates → Type 0
  IsCoordinates none o = o ≡ none
  IsCoordinates (some (coordinates c)) o = o ≡ some c
  IsCoordinates (some _) o = ⊥

  abbrev pub IsParameters : Option (Cell X) → Option ParametersReference → Type 0
  IsParameters none o = o ≡ none
  IsParameters (some (parameters p)) o = o ≡ some p
  IsParameters (some _) o = ⊥

  abbrev pub LocationSpecStands : Standing (Cell X) LocationSpecAt LocationSpec
  LocationSpecStands lo hi h x v =
      Both (Shown IsMap) (Shown IsCoordinates) lo hi h (x.topology, x.coordinates)
        (v.topology, v.coordinates)
      × (x.location_class_ref ≡ v.location_class_ref)

  abbrev pub StatusStands : Standing (Cell X) StatusAt (List Condition)
  StatusStands lo hi h x v = Shown IsConditions lo hi h x.conditions v

  abbrev pub LocationClassSpecStands : Standing (Cell X) LocationClassSpecAt LocationClassSpec
  LocationClassSpecStands lo hi h x v =
      Shown IsParameters lo hi h x.parameters_ref v.parameters_ref
      × (x.controller_name ≡ v.controller_name)

  abbrev pub ServingLocationSpecStands : Standing (Cell X) ServingLocationSpecAt ServingLocationSpec
  ServingLocationSpecStands lo hi h x v =
      Shown IsMap lo hi h x.topology v.topology × (x.source ≡ v.source)

map_same : {A : Type 0} (f : A → A) (l : List A) → ((a : A) → f a ≡ a) → map f l ≡ l
map_same f [] same = refl
map_same f (a ∷ l) same = rw (same a, map_same f l same) refl

module _ (L : Library) where
  pub location_spec-IsCopier :
      IsCopier (LocationSpecStands {X = L.Foreign}) (location_spec_deep_copy_into L)
  unfolding location_spec_deep_copy_into
  location_spec-IsCopier = record {
    moves = λ lo hi lo' hi' g h x v k l same (p, plain). (
      (paired-IsCopier (Shown-IsCopier IsMap) (Shown-IsCopier IsCoordinates)).moves lo hi lo' hi' g
          h _ (v.topology, v.coordinates) k l same p,
      plain,
    );
    copies = λ lo hi h x v k ((p, q), plain).
        let (n, same, r) =
          in_turn-Copied (Shown-IsCopier IsMap) (Shown-IsCopier IsCoordinates) lo hi h x.topology
            v.topology x.coordinates v.coordinates k p q in
        (n, same, (r, plain));
  }

  pub location_class_spec-IsCopier :
      IsCopier (LocationClassSpecStands {X = L.Foreign}) (location_class_spec_deep_copy_into L)
  unfolding location_class_spec_deep_copy_into
  location_class_spec-IsCopier = record {
    moves = λ lo hi lo' hi' g h x v k l same (p, plain). (
      (Shown-IsCopier IsParameters).moves lo hi lo' hi' g h _ v.parameters_ref k l same p,
      plain,
    );
    copies = λ lo hi h x v k (p, plain).
        let (n, same, r) = (Shown-IsCopier IsParameters).copies lo hi h _ v.parameters_ref k p in
        (n, same, (r, plain));
  }

  pub serving_location_spec-IsCopier :
      ((t : Time) → L.time_copy t ≡ t)
      → IsCopier
          (ServingLocationSpecStands {X = L.Foreign})
          (serving_location_spec_deep_copy_into L)
  unfolding serving_location_spec_deep_copy_into source_deep_copy_into
  serving_location_spec-IsCopier timed = record {
    moves = λ lo hi lo' hi' g h x v k l same (p, plain).
        ((Shown-IsCopier IsMap).moves lo hi lo' hi' g h _ v.topology k l same p, plain);
    copies = λ lo hi h x v k (p, plain).
        let (n, same, r) = (Shown-IsCopier IsMap).copies lo hi h _ v.topology k p in
        (n, same, (r, rw (timed x.source.published_at) plain));
  }

  copied_conditions_same :
      ((c : Condition) → L.condition_copy c ≡ c) → (c : Cell L.Foreign) → copied_conditions L c ≡ c
  copied_conditions_same same (conditions cs) = ap conditions (map_same L.condition_copy cs same)
  copied_conditions_same same (topology m) = refl
  copied_conditions_same same (coordinates c) = refl
  copied_conditions_same same (parameters p) = refl
  copied_conditions_same same (foreign x) = refl

  copied_cell_same :
      ((c : Condition) → L.condition_copy c ≡ c)
      → (o : Option (Cell L.Foreign)) → copied_cell L o ≡ o
  copied_cell_same same none = refl
  copied_cell_same same (some c) = ap some (copied_conditions_same same c)

  copy_conditions_same :
      ((c : Condition) → L.condition_copy c ≡ c)
      → (p : Option Address) (h : KindStore L) → copy_conditions L p h ≡ copy_pointer p h
  copy_conditions_same same none h = refl
  copy_conditions_same same (some a) h =
      ap (λ o. copy_cell a o h) (copied_cell_same same (h.cells a))

  pub status-IsCopier :
      ((c : Condition) → L.condition_copy c ≡ c)
      → IsCopier (StatusStands {X = L.Foreign}) (status_deep_copy_into L)
  unfolding status_deep_copy_into
  status-IsCopier clean = record {
    moves = λ lo hi lo' hi' g h x v k l same p.
        (Shown-IsCopier IsConditions).moves lo hi lo' hi' g h _ v k l same p;
    copies = λ lo hi h x v k p.
        rw (copy_conditions_same clean x.conditions h)
          ((Shown-IsCopier IsConditions).copies lo hi h _ v k p);
  }
