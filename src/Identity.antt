-- ===== src/Identity.antt =====
-- pkg/locationidentity/identity.go: which location a cell serves.
pub mod Resolved
use locations.Prelude.{String, Bool, true, false, not, List, [], ◌∷◌, length}
use locations.Prelude.{◌==◌, ◌<>◌, ◌&&◌, if◌then◌else◌}
use locations.Prelude.Effect.{Except, ok, err}
use locations.Prelude.Text.{decimal}
use locations.Api.{ServingLocation, LocationReference, serving_location_topology_label}

abbrev pub location_identity_source_delivered : String
location_identity_source_delivered = "Delivered"

abbrev pub location_identity_source_configured : String
location_identity_source_configured = "Configured"

abbrev pub location_unresolved_no_identity : String
location_unresolved_no_identity = "NoLocationIdentity"

abbrev pub location_unresolved_ambiguous : String
location_unresolved_ambiguous = "AmbiguousLocationIdentity"

pub record LocationConfig : Type 0 where
  pub name : String

pub record LocationIdentity : Type 0 where
  pub reference : LocationReference
  pub source : String
  pub mismatch : Bool

pub record LocationUnresolved : Type 0 where
  pub reason : String
  pub message : String

-- The errors of `Resolve`: of the listing, or that the cell cannot name its location.
pub data Error (F : Type 0) : Type 0 where
  listing : F → Error F
  unresolved : LocationUnresolved → Error F

abbrev configured_identity : LocationConfig → LocationIdentity
configured_identity configured = record {
  reference = record { name = configured.name };
  source = location_identity_source_configured;
  mismatch = false;
}

abbrev delivered_identity : LocationConfig → ServingLocation → LocationIdentity
delivered_identity configured item = record {
  reference = record { name = item.meta.name };
  source = location_identity_source_delivered;
  mismatch = not (configured.name == "") && not (configured.name == item.meta.name);
}

abbrev pub ambiguous : List ServingLocation → LocationUnresolved
ambiguous items = record {
  reason = location_unresolved_ambiguous;
  message =
      decimal (length items)
      <> " ServingLocations have been delivered to this cell; exactly one cluster label "
      <> serving_location_topology_label
      <> " is expected and no location is configured to fall back to";
}

abbrev pub no_identity : LocationUnresolved
no_identity = record {
  reason = location_unresolved_no_identity;
  message =
      "no ServingLocation has been delivered to this cell and location.name is not configured; label the cluster with "
      <> serving_location_topology_label <> " or configure a location";
}

module _ {F : Type 0} where
  -- The `switch` of `Resolve` over the delivered copies.
  unfoldable pub resolve_items :
      LocationConfig → List ServingLocation → Except (Error F) LocationIdentity
  resolve_items configured (item ∷ []) = ok (delivered_identity configured item)
  resolve_items configured (a ∷ b ∷ rest) =
      if not (configured.name == "")
      then ok (configured_identity configured)
      else err (Error.unresolved (ambiguous (a ∷ b ∷ rest)))
  resolve_items configured [] =
      if not (configured.name == "")
      then ok (configured_identity configured)
      else err (Error.unresolved no_identity)

  -- `Resolve`, from what the reader's `List` returned
  unfoldable pub resolve :
      LocationConfig → Except F (List ServingLocation) → Except (Error F) LocationIdentity
  unfolding resolve_items
  resolve configured (ok items) = resolve_items configured items
  resolve configured (err e) = err (Error.listing e)
