-- ===== src/Publisher/Hub.antt =====
-- `readPublished`, `listPublished`, and the annotation on a retained copy: `recordBlocked` and
-- `clearBlocked`.
use locations.Prelude.{String, Bool, Option, none, some, List}
use locations.Prelude.{◌==◌, ◌<>◌, if◌then◌else◌}
use locations.Prelude.Effect.{Except, ok, err, pure, raise, query, ◌>>=◌}
use locations.Prelude.GoMap.{GoMap, index, contains, insert, erase}
use locations.Api.{ServingLocation}
use locations.Publisher.Client.{Env, Call, Error, M, request}
use locations.Publisher.Ownership.{
  location_publisher_managed_by_label, location_publisher_managed_by_value,
  location_removal_blocked_annotation,
}

pub record RemovalDecision : Type 0 where
  pub allowed : Bool
  pub reason : String
  pub message : String

-- The object with other annotations.
abbrev pub with_annotations : GoMap → ServingLocation → ServingLocation
with_annotations m s = record s { meta = record (s.meta) { annotations = m } }

-- What `recordBlocked` writes into the annotation.
abbrev pub blocked_text : RemovalDecision → String
blocked_text d = d.reason <> ": " <> d.message

module _ (V : Env) where
  abbrev pub read_answer : String → Except V.Failure ServingLocation → M V (Option ServingLocation)
  read_answer name (ok s) = pure (some s)
  read_answer name (err e) =
      if V.is_not_found e then pure none else raise (Error.reading_published name e)

  unfoldable pub read_published : String → M V (Option ServingLocation)
  read_published name = query (Call.got_published name) (V.hub_get name) >>= read_answer name

  unfoldable pub list_published : M V (List ServingLocation)
  list_published =
      request V Call.listed_published Error.listing_published
        (V.hub_list location_publisher_managed_by_label location_publisher_managed_by_value)

  unfoldable pub record_blocked : ServingLocation → RemovalDecision → M V (Unit {0})
  record_blocked published decision =
      let message = blocked_text decision in
      let annotations = published.meta.annotations in
      let updated =
        with_annotations (insert location_removal_blocked_annotation message annotations)
          published in
      if index location_removal_blocked_annotation annotations == message
      then pure tt
      else request V (Call.patched_serving published updated) Error.recording_blocked
          (V.hub_patch published updated)

  unfoldable pub clear_blocked : Option ServingLocation → M V (Unit {0})
  clear_blocked none = pure tt
  clear_blocked (some published) =
      let annotations = published.meta.annotations in
      let updated =
        with_annotations (erase location_removal_blocked_annotation annotations) published in
      if contains location_removal_blocked_annotation annotations
      then request V (Call.patched_serving published updated) Error.clearing_blocked
          (V.hub_patch published updated)
      else pure tt
