-- ===== src/Deepcopy/Kinds.antt =====
-- api/v1alpha1/zz_generated.deepcopy.go: the kinds with their pointers, and the generated copies.
use locations.Prelude.{String, Option, none, some, List, map}
use locations.Prelude.GoMap.{GoMap}
use locations.Api.{
  Time, Condition, LocationClassReference, Coordinates, ParametersReference, ServingLocationSource,
}
use locations.Deepcopy.Store.{Address, Store, copy_pointer, copy_cell, deep_copy, returned}

-- What the generated code calls of apimachinery: the copies of metadata, of a condition and of a
-- time. Metadata has pointers of its own, to cells that are not ours.
pub record Library : Type 1 where
  pub Metadata : Type 0
  pub Foreign : Type 0
  pub condition_copy : Condition → Condition
  pub time_copy : Time → Time

pub data Cell (X : Type 0) : Type 0 where
  topology : GoMap → Cell X
  coordinates : Coordinates → Cell X
  parameters : ParametersReference → Cell X
  conditions : List Condition → Cell X
  foreign : X → Cell X

pub record LocationSpecAt : Type 0 where
  pub location_class_ref : LocationClassReference
  pub topology : Option Address
  pub coordinates : Option Address

-- `LocationStatus`, and `LocationClassStatus`
pub record StatusAt : Type 0 where
  pub conditions : Option Address

pub record LocationAt (Metadata : Type 0) : Type 0 where
  pub meta : Metadata
  pub spec : LocationSpecAt
  pub status : StatusAt

pub record LocationClassSpecAt : Type 0 where
  pub controller_name : String
  pub parameters_ref : Option Address

pub record LocationClassAt (Metadata : Type 0) : Type 0 where
  pub meta : Metadata
  pub spec : LocationClassSpecAt
  pub status : StatusAt

pub record ServingLocationSpecAt : Type 0 where
  pub topology : Option Address
  pub source : ServingLocationSource

pub record ServingLocationAt (Metadata : Type 0) : Type 0 where
  pub meta : Metadata
  pub spec : ServingLocationSpecAt

module _ (L : Library) where
  abbrev pub KindStore : Type 0
  KindStore = Store (Cell L.Foreign)

  -- The loop over the entries gives a map with the same entries.
  unfoldable pub location_spec_deep_copy_into :
      LocationSpecAt → KindStore → LocationSpecAt × KindStore
  location_spec_deep_copy_into x h =
      let out = record x { location_class_ref = x.location_class_ref } in
      let (t, h') = copy_pointer x.topology h in
      let (c, h'') = copy_pointer x.coordinates h' in
      (record out { topology = t; coordinates = c }, h'')

  -- the new array of conditions, each copied
  abbrev pub copied_conditions : Cell L.Foreign → Cell L.Foreign
  copied_conditions (conditions cs) = conditions (map L.condition_copy cs)
  copied_conditions (topology m) = topology m
  copied_conditions (coordinates c) = coordinates c
  copied_conditions (parameters p) = parameters p
  copied_conditions (foreign x) = foreign x

  abbrev pub copied_cell : Option (Cell L.Foreign) → Option (Cell L.Foreign)
  copied_cell none = none
  copied_cell (some c) = some (copied_conditions c)

  abbrev pub copy_conditions : Option Address → KindStore → Option Address × KindStore
  copy_conditions none h = (none, h)
  copy_conditions (some a) h = copy_cell a (copied_cell (h.cells a)) h

  unfoldable pub status_deep_copy_into : StatusAt → KindStore → StatusAt × KindStore
  status_deep_copy_into x h =
      let (p, h') = copy_conditions x.conditions h in (record { conditions = p }, h')

  unfoldable pub location_class_spec_deep_copy_into :
      LocationClassSpecAt → KindStore → LocationClassSpecAt × KindStore
  location_class_spec_deep_copy_into x h =
      let (p, h') = copy_pointer x.parameters_ref h in (record x { parameters_ref = p }, h')

  unfoldable pub source_deep_copy_into :
      ServingLocationSource → KindStore → ServingLocationSource × KindStore
  source_deep_copy_into x h = (record x { published_at = L.time_copy x.published_at }, h)

  unfoldable pub serving_location_spec_deep_copy_into :
      ServingLocationSpecAt → KindStore → ServingLocationSpecAt × KindStore
  serving_location_spec_deep_copy_into x h =
      let (t, h') = copy_pointer x.topology h in
      let (s, h'') = source_deep_copy_into x.source h' in (record { topology = t; source = s }, h'')

  -- Given `(*ObjectMeta).DeepCopyInto`.
  module _ (meta_deep_copy_into : L.Metadata → KindStore → L.Metadata × KindStore) where
    unfoldable pub location_deep_copy_into :
        LocationAt L.Metadata → KindStore → LocationAt L.Metadata × KindStore
    location_deep_copy_into x h =
        let (m, h1) = meta_deep_copy_into x.meta h in
        let (p, h2) = location_spec_deep_copy_into x.spec h1 in
        let (s, h3) = status_deep_copy_into x.status h2 in
        (record { meta = m; spec = p; status = s }, h3)

    unfoldable pub location_class_deep_copy_into :
        LocationClassAt L.Metadata → KindStore → LocationClassAt L.Metadata × KindStore
    location_class_deep_copy_into x h =
        let (m, h1) = meta_deep_copy_into x.meta h in
        let (p, h2) = location_class_spec_deep_copy_into x.spec h1 in
        let (s, h3) = status_deep_copy_into x.status h2 in
        (record { meta = m; spec = p; status = s }, h3)

    unfoldable pub serving_location_deep_copy_into :
        ServingLocationAt L.Metadata → KindStore → ServingLocationAt L.Metadata × KindStore
    serving_location_deep_copy_into x h =
        let (m, h1) = meta_deep_copy_into x.meta h in
        let (p, h2) = serving_location_spec_deep_copy_into x.spec h1 in
        (record { meta = m; spec = p }, h2)

    -- The `DeepCopyObject` of each kind; `none` is the nil interface.
    abbrev pub location_deep_copy_object :
        Option (LocationAt L.Metadata) → KindStore → Option (LocationAt L.Metadata) × KindStore
    location_deep_copy_object x h =
        let (c, h') = deep_copy location_deep_copy_into x h in (returned c, h')

    abbrev pub location_class_deep_copy_object :
        Option (LocationClassAt L.Metadata)
        → KindStore
        → Option (LocationClassAt L.Metadata) × KindStore
    location_class_deep_copy_object x h =
        let (c, h') = deep_copy location_class_deep_copy_into x h in (returned c, h')

    abbrev pub serving_location_deep_copy_object :
        Option (ServingLocationAt L.Metadata)
        → KindStore
        → Option (ServingLocationAt L.Metadata) × KindStore
    serving_location_deep_copy_object x h =
        let (c, h') = deep_copy serving_location_deep_copy_into x h in (returned c, h')
