-- ===== src/Publisher/World/Spec.antt =====
-- What one run of the publisher is meant to do to the control planes, as a function on views.
use locations.Prelude.{String, Bool, true, false, not, Option, none, some, List, []}
use locations.Prelude.{◌==◌, ◌||◌, is_empty, if◌then◌else◌}
use locations.Api.{Time, Location, ServingLocation}
use locations.Config.{LocationScopedResource}
use locations.Publisher.Policy.{propagation_policy, location_propagation_policy_name}
use locations.Publisher.Guard.{removal_decision}
use locations.Publisher.Publish.{trimmed_city_code, keep_published_at}
use locations.Publisher.World.{
  Copy, View, with_copy, with_policy, put, merged, still_others, others_in, remaining,
  remaining_policy,
}
use locations.Prelude.GoMap.{GoMap}

-- An object with this content and no metadata.
abbrev pub bare : Copy → ServingLocation
bare c = record {
  meta = record {
    name = "";
    labels = [];
    annotations = [];
    finalizers = [];
    generation = 0;
    deletion_timestamp = none;
    managed_fields = [];
  };
  spec = c.spec;
}

abbrev pub flag_of : (Copy → Bool) → Option Copy → Bool
flag_of f none = false
flag_of f (some c) = f c

-- The time of publication: kept while the content is the same.
abbrev pub publication_time : Time → Option Copy → Location → Time
publication_time clock none l = clock
publication_time clock (some c) l = keep_published_at clock (some (bare c)) l (trimmed_city_code l)

-- What a new copy is, or one that is held becomes. The entries of others in the topology stay.
abbrev pub published_copy : Time → GoMap → Option Copy → Location → Copy
published_copy clock os held l = record {
  spec = record {
    topology = merged (others_in held os) l.spec.topology;
    source = record {
      generation = l.meta.generation;
      published_at = publication_time clock held l;
    };
  };
  owned = true;
  override = flag_of (λ c. c.override) held;
  finalized = flag_of (λ c. c.finalized) held;
  deleting = flag_of (λ c. c.deleting) held;
}

abbrev pub is_foreign_copy : Option Copy → Bool
is_foreign_copy none = false
is_foreign_copy (some c) = not c.owned

-- The copy and the policy of a Location are written.
abbrev pub after_publish : List LocationScopedResource → Time → Location → View → View
after_publish scoped clock l v =
    let n = l.meta.name in
    with_policy (location_propagation_policy_name n) (some (propagation_policy scoped n))
      (record v {
        copies = put n (some (published_copy clock (v.others n) (v.copies n) l)) v.copies;
        others = λ k.
            if n == k
            then still_others (others_in (v.copies n) (v.others n)) l.spec.topology
            else v.others k;
      })

-- The copy and the policy of a name are deleted: gone, or kept by finalizers.
abbrev pub after_remove : String → View → View
after_remove name v =
    let policy = location_propagation_policy_name name in
    with_policy policy (remaining_policy policy v) (with_copy name (remaining (v.copies name)) v)

abbrev pub publishing : List LocationScopedResource → Time → Location → View → View
publishing scoped clock l v =
    if trimmed_city_code l == ""
    then v
    else if is_foreign_copy (v.copies l.meta.name)
    then v
    else after_publish scoped clock l v

abbrev pub removing : String → Option Copy → View → View
removing name none v = v
removing name (some c) v =
    if not c.owned
    then v
    else if is_empty v.listing
    then v
    else if c.override || (removal_decision name v.clusters).allowed
    then after_remove name v
    else v

abbrev acting : List LocationScopedResource → Time → String → Option Location → View → View
acting scoped clock name none v = removing name (v.copies name) v
acting scoped clock name (some l) v = publishing scoped clock l v

-- One run for a name, given what the clock reads.
unfoldable pub next : List LocationScopedResource → Time → String → View → View
next scoped clock name v = acting scoped clock name (v.sources name) v
