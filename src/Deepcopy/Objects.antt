-- ===== src/Deepcopy/Objects.antt =====
-- The copies of Locations, of classes and of ServingLocations, whatever happens to the store later.
use locations.Prelude.{Option, ◌≡◌}
use locations.Api.{Time, Condition, ObjectMeta, Location, LocationClass, ServingLocation}
use locations.Deepcopy.Store.Agree.{Agrees, Standing, IsCopier, Both}
use locations.Deepcopy.Store.Kept.{OptionAt, separates, paired, paired-IsCopier}
use locations.Deepcopy.Kinds.{
  Library, Cell, LocationAt, LocationClassAt, ServingLocationAt, KindStore,
  location_spec_deep_copy_into, status_deep_copy_into, location_class_spec_deep_copy_into,
  serving_location_spec_deep_copy_into, location_deep_copy_into, location_class_deep_copy_into,
  serving_location_deep_copy_into, location_deep_copy_object, location_class_deep_copy_object,
  serving_location_deep_copy_object,
}
use locations.Deepcopy.Apart.{
  LocationSpecStands, StatusStands, LocationClassSpecStands, ServingLocationSpecStands,
  location_spec-IsCopier, location_class_spec-IsCopier, serving_location_spec-IsCopier,
  status-IsCopier,
}

-- Given what metadata is in a store, and that the library's copy of it is one.
module _ (L : Library) (MetaStands : Standing (Cell L.Foreign) L.Metadata ObjectMeta)
    (meta_into : L.Metadata → KindStore L → L.Metadata × KindStore L) where
  abbrev pub LocationStands : Standing (Cell L.Foreign) (LocationAt L.Metadata) Location
  LocationStands lo hi h x v =
      Both MetaStands (Both LocationSpecStands StatusStands) lo hi h (x.meta, (x.spec, x.status))
        (v.meta, (v.spec, v.status.conditions))

  abbrev pub LocationClassStands :
      Standing (Cell L.Foreign) (LocationClassAt L.Metadata) LocationClass
  LocationClassStands lo hi h x v =
      Both MetaStands (Both LocationClassSpecStands StatusStands) lo hi h
        (x.meta, (x.spec, x.status)) (v.meta, (v.spec, v.status.conditions))

  abbrev pub ServingLocationStands :
      Standing (Cell L.Foreign) (ServingLocationAt L.Metadata) ServingLocation
  ServingLocationStands lo hi h x v =
      Both MetaStands ServingLocationSpecStands lo hi h (x.meta, x.spec) (v.meta, v.spec)

  module _ (M : IsCopier MetaStands meta_into) where
    location-IsCopier :
        ((c : Condition) → L.condition_copy c ≡ c)
        → IsCopier LocationStands (location_deep_copy_into L meta_into)
    unfolding location_deep_copy_into
    location-IsCopier clean = record {
      moves = λ lo hi lo' hi' g h x v k l same p.
          all.moves lo hi lo' hi' g h (x.meta, (x.spec, x.status))
            (v.meta, (v.spec, v.status.conditions)) k l same p;
      copies = λ lo hi h x v k p.
          all.copies lo hi h (x.meta, (x.spec, x.status)) (v.meta, (v.spec, v.status.conditions)) k
            p;
    }
      where
        all :
            IsCopier
              (Both MetaStands (Both LocationSpecStands StatusStands))
              (paired meta_into (paired (location_spec_deep_copy_into L) (status_deep_copy_into L)))
        all =
            paired-IsCopier M (paired-IsCopier (location_spec-IsCopier L) (status-IsCopier L clean))

    location_class-IsCopier :
        ((c : Condition) → L.condition_copy c ≡ c)
        → IsCopier LocationClassStands (location_class_deep_copy_into L meta_into)
    unfolding location_class_deep_copy_into
    location_class-IsCopier clean = record {
      moves = λ lo hi lo' hi' g h x v k l same p.
          all.moves lo hi lo' hi' g h (x.meta, (x.spec, x.status))
            (v.meta, (v.spec, v.status.conditions)) k l same p;
      copies = λ lo hi h x v k p.
          all.copies lo hi h (x.meta, (x.spec, x.status)) (v.meta, (v.spec, v.status.conditions)) k
            p;
    }
      where
        all : IsCopier (Both MetaStands (Both LocationClassSpecStands StatusStands)) (
            paired meta_into
              (paired (location_class_spec_deep_copy_into L) (status_deep_copy_into L)))
        all =
            paired-IsCopier M
              (paired-IsCopier (location_class_spec-IsCopier L) (status-IsCopier L clean))

    serving_location-IsCopier :
        ((t : Time) → L.time_copy t ≡ t)
        → IsCopier ServingLocationStands (serving_location_deep_copy_into L meta_into)
    unfolding serving_location_deep_copy_into
    serving_location-IsCopier timed = record {
      moves = λ lo hi lo' hi' g h x v k l same p.
          all.moves lo hi lo' hi' g h (x.meta, x.spec) (v.meta, v.spec) k l same p;
      copies = λ lo hi h x v k p. all.copies lo hi h (x.meta, x.spec) (v.meta, v.spec) k p;
    }
      where
        all :
            IsCopier
              (Both MetaStands ServingLocationSpecStands)
              (paired meta_into (serving_location_spec_deep_copy_into L))
        all = paired-IsCopier M (serving_location_spec-IsCopier L timed)

    -- For a Location, or nil, whose pointers all point to cells in use, and given that the library's
    -- copy of metadata is a copy apart and its copy of a condition is equal to it: after
    -- `DeepCopyObject`, in every store that has the cells that the copy has allocated, the copy is the
    -- same Location as the original was; and in every store that has the older cells, the original
    -- still is that Location.
    pub location_deep_copy_object_separates :
        ((c : Condition) → L.condition_copy c ≡ c)
        → (h g g' : KindStore L) (x : Option (LocationAt L.Metadata)) (v : Option Location)
        → OptionAt LocationStands 0 h.next h x v
        → Agrees h.next
            (location_deep_copy_object L meta_into x h).1.next
            g
            (location_deep_copy_object L meta_into x h).1
        → Agrees 0 h.next g' (location_deep_copy_object L meta_into x h).1
        → OptionAt LocationStands h.next
            (location_deep_copy_object L meta_into x h).1.next
            g
            (location_deep_copy_object L meta_into x h).0
            v
          × OptionAt LocationStands 0 h.next g' x v
    location_deep_copy_object_separates clean h g g' x v q new old =
        separates (location-IsCopier clean) h g g' x v q new old

    -- For a class, or nil, whose pointers all point to cells in use, and given that the library's
    -- copy of metadata is a copy apart and its copy of a condition is equal to it: after
    -- `DeepCopyObject`, in every store that has the cells that the copy has allocated, the copy is the
    -- same class as the original was; and in every store that has the older cells, the original still
    -- is that class.
    pub location_class_deep_copy_object_separates :
        ((c : Condition) → L.condition_copy c ≡ c)
        → (h g g' : KindStore L) (x : Option (LocationClassAt L.Metadata))
          (v : Option LocationClass)
        → OptionAt LocationClassStands 0 h.next h x v
        → Agrees h.next
            (location_class_deep_copy_object L meta_into x h).1.next
            g
            (location_class_deep_copy_object L meta_into x h).1
        → Agrees 0 h.next g' (location_class_deep_copy_object L meta_into x h).1
        → OptionAt LocationClassStands h.next
            (location_class_deep_copy_object L meta_into x h).1.next
            g
            (location_class_deep_copy_object L meta_into x h).0
            v
          × OptionAt LocationClassStands 0 h.next g' x v
    location_class_deep_copy_object_separates clean h g g' x v q new old =
        separates (location_class-IsCopier clean) h g g' x v q new old

    -- For a ServingLocation, or nil, whose pointers all point to cells in use, and given that the
    -- library's copy of metadata is a copy apart and its copy of a time is equal to it: after
    -- `DeepCopyObject`, in every store that has the cells that the copy has allocated, the copy is the
    -- same ServingLocation as the original was; and in every store that has the older cells, the
    -- original still is that ServingLocation.
    pub serving_location_deep_copy_object_separates :
        ((t : Time) → L.time_copy t ≡ t)
        → (h g g' : KindStore L) (x : Option (ServingLocationAt L.Metadata))
          (v : Option ServingLocation)
        → OptionAt ServingLocationStands 0 h.next h x v
        → Agrees h.next
            (serving_location_deep_copy_object L meta_into x h).1.next
            g
            (serving_location_deep_copy_object L meta_into x h).1
        → Agrees 0 h.next g' (serving_location_deep_copy_object L meta_into x h).1
        → OptionAt ServingLocationStands h.next
            (serving_location_deep_copy_object L meta_into x h).1.next
            g
            (serving_location_deep_copy_object L meta_into x h).0
            v
          × OptionAt ServingLocationStands 0 h.next g' x v
    serving_location_deep_copy_object_separates timed h g g' x v q new old =
        separates (serving_location-IsCopier timed) h g g' x v q new old
