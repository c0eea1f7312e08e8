-- ===== src/Publisher/Deletion/Prune.antt =====
-- What a successful `pruneAllowed` has seen.
use locations.Prelude.{String, true, false, List, [], ◌∷◌, ◌≡◌, refl, inl, inr, is_empty}
use locations.Prelude.{if◌then◌else◌}
use locations.Prelude.Effect.{ok, pure, ◌>>=◌}
use locations.Prelude.Trace.{
  Some, Some-map, Traced, bind-Traced, pure-Traced, raise-Traced, query-bind-Traced, request-Traced,
  note-bind-Traced, pure-bind-Traced, raise-bind-Traced,
}
use locations.Api.{Location, ServingLocation}
use locations.Publisher.Client.{Env, Call}
use locations.Publisher.Hub.{list_published}
use locations.Publisher.Removal.{prune_allowed, require_empty_hub}
use locations.Publisher.Deletion.{Calls, HasSource, IsSafeToPrune, Justification}

module _ (V : Env) (name : String) where
  abbrev J : Calls V → Call V.Failure → Type 0
  J = Justification V name

  abbrev IsSynced : Calls V → Type 0
  IsSynced now = Some (λ c. c ≡ Call.source_sync true) now × Some (λ c. c ≡ Call.hub_sync true) now

  require_empty_hub-Traced :
      (held : List ServingLocation) (now : Calls V)
      → IsSynced now
      → Some (λ c. c ≡ Call.listed_published (ok held)) now
      → Traced J (λ _ now. IsSafeToPrune V now) now (require_empty_hub V held)
  require_empty_hub-Traced [] now (s, h) l = pure-Traced J tt (s, h, inr l)
  require_empty_hub-Traced (p ∷ ps) now (s, h) l = note-bind-Traced J _ _ tt (raise-Traced J _)

  check_hub-Traced :
      (now : Calls V)
      → IsSynced now
      → Traced J (λ _ now. IsSafeToPrune V now) now (list_published V >>= require_empty_hub V)
  unfolding list_published
  check_hub-Traced now (s, h) =
      bind-Traced J
        (λ held after. IsSynced after × Some (λ c. c ≡ Call.listed_published (ok held)) after)
        (request-Traced J _ _ _ (λ _. tt) (λ held. ((inr s, inr h), inl refl)))
        λ held after facts. require_empty_hub-Traced held after facts.0 facts.1

  check_source-Traced :
      (locations : List Location) (now : Calls V)
      → IsSynced now
      → Some (λ c. c ≡ Call.listed_locations (ok locations)) now
      → Traced J
          (λ _ now. IsSafeToPrune V now)
          now
          (if is_empty locations then list_published V >>= require_empty_hub V else pure tt)
  check_source-Traced [] now h l = check_hub-Traced now h
  check_source-Traced (x ∷ xs) now (s, h) l =
      pure-Traced J tt (s, h, inl (Some-map _ (HasSource V) now (λ c e. (x, xs, e)) l))

  -- With both caches in step, and a location at the source or no copy on the hub.
  pub prune_allowed-Traced :
      (seen : Calls V) → Traced J (λ _ now. IsSafeToPrune V now) seen (prune_allowed V)
  unfolding prune_allowed
  prune_allowed-Traced seen =
      query-bind-Traced J _ _ _ (λ _. tt)
        (elim [
          | false ↦ raise-bind-Traced J _ _
          | true ↦ pure-bind-Traced J _ _ (
              query-bind-Traced J _ _ _ (λ _. tt)
                (elim [
                  | false ↦ raise-bind-Traced J _ _
                  | true ↦ pure-bind-Traced J _ _ (
                      bind-Traced J
                        (λ ls after.
                          IsSynced after × Some (λ c. c ≡ Call.listed_locations (ok ls)) after)
                        (request-Traced J _ _ _ (λ _. tt)
                          (λ ls. ((inr (inr (inl refl)), inr (inl refl)), inl refl)))
                        λ ls after facts. check_source-Traced ls after facts.0 facts.1)
                ]))
        ])
