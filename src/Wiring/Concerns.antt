-- ===== src/Wiring/Concerns.antt =====
-- For which changes of which objects each controller runs, and for which names.
use locations.Prelude.{
  String, Bool, true, false, List, [], ◌∷◌, ◌++◌, ◌≡◌, ◌↔◌, refl, if◌then◌else◌, inl, inr, ◌⊎◌,
}
use locations.Prelude.Effect.{Except, ok, err, runs}
use locations.Prelude.Trace.{Some}
use locations.Api.{Location, LocationClass, ServingLocation}
use locations.Class.Index.{class_names, Object, enqueue_local_class}
use locations.Publisher.Policy.{enqueue_policy_owner, location_propagation_policy_name}
use locations.Readiness.Client as Reporting
use locations.Wiring.Client.{
  Env, Origin, manager_cache, source_cache, hub_cache, Watch, of_locations, of_classes, of_copies,
  of_policies,
}
use locations.Wiring.Setup.{
  class_watches, readiness_watches, publisher_watches, locations_naming_class,
}
use locations.Wiring.Requests.{Some-++, policy_owner-Some, local_class-Some, requests_naming-Some}

-- An object that has changed, and the cache that shows it.
pub data Event : Type 0 where
  location_changed : Origin → Location → Event
  class_changed : Origin → LocationClass → Event
  copy_changed : Origin → ServingLocation → Event
  policy_changed : Origin → String → Event

abbrev same_origin : Origin → Origin → Bool
same_origin manager_cache manager_cache = true
same_origin source_cache source_cache = true
same_origin hub_cache hub_cache = true
same_origin _ _ = false

module _ {S : Type 0} where
  -- A watch is told of the objects of its kind in its cache.
  abbrev deliver : Watch S → Event → S → List String
  deliver (of_locations o f) (location_changed p l) s = if same_origin o p then (f l s).0 else []
  deliver (of_classes o f) (class_changed p c) s = if same_origin o p then (f c s).0 else []
  deliver (of_copies o f) (copy_changed p c) s = if same_origin o p then (f c s).0 else []
  deliver (of_policies o f) (policy_changed p q) s = if same_origin o p then (f q s).0 else []
  deliver _ _ s = []

  abbrev requested : List (Watch S) → Event → S → List String
  requested [] e s = []
  requested (w ∷ ws) e s = deliver w e s ++ requested ws e s

-- The event asks for a run for this name.
abbrev pub Asks : {S : Type 0} → List (Watch S) → Event → S → String → Type 0
Asks ws e s n = Some (λ m. m ≡ n) (requested ws e s)

-- A run of the publisher for a name concerns its Location on the source, and its copy and its policy
-- on the hub.
abbrev pub ConcernsPublisher : Event → String → Type 0
ConcernsPublisher (location_changed source_cache l) n = l.meta.name ≡ n
ConcernsPublisher (copy_changed hub_cache p) n = p.meta.name ≡ n
ConcernsPublisher (policy_changed hub_cache q) n = q ≡ location_propagation_policy_name n
ConcernsPublisher _ n = ⊥

-- A run of the class controller concerns the class, and the Locations that name it.
abbrev pub ConcernsClass : Event → String → Type 0
ConcernsClass (class_changed manager_cache c) n = c.meta.name ≡ n
ConcernsClass (location_changed manager_cache l) n = class_names l ≡ n ∷ []
ConcernsClass _ n = ⊥

-- The listing has a Location of this name that names the class.
abbrev IsNaming : {F : Type 0} → String → String → Except F (List Location) → Type 0
IsNaming class_name n (ok ls) = Some (λ l. (class_names l ≡ class_name ∷ []) × (l.meta.name ≡ n)) ls
IsNaming class_name n (err e) = ⊥

-- A run of the readiness controller concerns the Location, and the class that it names.
abbrev pub ConcernsReadiness : (V : Env) → V.reporting.State → Event → String → Type 0
ConcernsReadiness V s (location_changed manager_cache l) n = l.meta.name ≡ n
ConcernsReadiness V s (class_changed manager_cache c) n =
    IsNaming c.meta.name n (V.reporting.list_locations s).0
ConcernsReadiness V s _ n = ⊥

one_iff : (m n : String) → ((m ≡ n) ⊎ ⊥) ↔ (m ≡ n)
one_iff m n = (there, λ e. inl e)
  where
    there : (m ≡ n) ⊎ ⊥ → m ≡ n
    there (inl e) = e
    there (inr h) = absurd h

last_iff :
    (names : List String) (n : String) (P : Type 0)
    → Some (λ m. m ≡ n) names ↔ P
    → Some (λ m. m ≡ n) (names ++ []) ↔ P
last_iff names n P h = (
  λ some_of. h.0 (left ((Some-++ (λ m. m ≡ n) names []).0 some_of)),
  λ p. (Some-++ (λ m. m ≡ n) names []).1 (inl (h.1 p)),
)
  where
    left : Some (λ m. m ≡ n) names ⊎ ⊥ → Some (λ m. m ≡ n) names
    left (inl a) = a
    left (inr b) = absurd b

never : ⊥ ↔ ⊥
never = (λ h. h, λ h. h)

-- The watches of the publisher ask for a run for a name at exactly these changes: of the Location of
-- that name on the source, of the copy of that name on the hub, and of the policy on the hub that has
-- the name which the publisher gives to that location's policy.
pub publisher_watches-Asks_iff :
    (V : Env) (e : Event) (s : V.reporting.State) (n : String)
    → Asks (publisher_watches V) e s n ↔ ConcernsPublisher e n
unfolding publisher_watches
publisher_watches-Asks_iff V (location_changed source_cache l) s n = one_iff l.meta.name n
publisher_watches-Asks_iff V (location_changed hub_cache l) s n = never
publisher_watches-Asks_iff V (location_changed manager_cache l) s n = never
publisher_watches-Asks_iff V (copy_changed hub_cache p) s n = one_iff p.meta.name n
publisher_watches-Asks_iff V (copy_changed source_cache p) s n = never
publisher_watches-Asks_iff V (copy_changed manager_cache p) s n = never
publisher_watches-Asks_iff V (policy_changed hub_cache q) s n =
    last_iff (enqueue_policy_owner q) n _ (policy_owner-Some q n)
publisher_watches-Asks_iff V (policy_changed source_cache q) s n = never
publisher_watches-Asks_iff V (policy_changed manager_cache q) s n = never
publisher_watches-Asks_iff V (class_changed o c) s n = never

-- Where the handler that `For` installs asks for the name of the object: the watches of the class
-- controller ask for a run for a name at exactly the changes, in the manager's cache, of the class of
-- that name and of the Locations that the index files under it alone.
pub class_watches-Asks_iff :
    (V : Env) (e : Event) (s : V.reporting.State) (n : String)
    → ((m : String) → V.for_object m ≡ m ∷ [])
    → Asks (class_watches V) e s n ↔ ConcernsClass e n
unfolding class_watches
class_watches-Asks_iff V (class_changed manager_cache c) s n named =
    rw (named c.meta.name) (one_iff c.meta.name n)
class_watches-Asks_iff V (class_changed source_cache c) s n named = never
class_watches-Asks_iff V (class_changed hub_cache c) s n named = never
class_watches-Asks_iff V (location_changed manager_cache l) s n named =
    last_iff (enqueue_local_class (Object.location l)) n _ (local_class-Some l n)
class_watches-Asks_iff V (location_changed source_cache l) s n named = never
class_watches-Asks_iff V (location_changed hub_cache l) s n named = never
class_watches-Asks_iff V (copy_changed o p) s n named = never
class_watches-Asks_iff V (policy_changed o q) s n named = never

IsNaming-iff :
    (V : Env) (r : Reporting.Reconciler) (c : LocationClass) (s : V.reporting.State) (n : String)
    → Some (λ m. m ≡ n) (locations_naming_class V r c s).0
      ↔ IsNaming c.meta.name n (V.reporting.list_locations s).0
unfolding locations_naming_class runs
IsNaming-iff V r c s n = by_answer (V.reporting.list_locations s).0 refl
  where
    by_answer :
        (answer : Except V.reporting.Failure (List Location))
        → (V.reporting.list_locations s).0 ≡ answer
        → Some (λ m. m ≡ n) (locations_naming_class V r c s).0
          ↔ IsNaming c.meta.name n (V.reporting.list_locations s).0
    by_answer (ok ls) e = rw e (requests_naming-Some c.meta.name n ls)
    by_answer (err x) e = rw e never

-- Where the handler that `For` installs asks for the name of the object: the watches of the readiness
-- controller ask for a run for a name at exactly the changes, in the manager's cache, of the Location
-- of that name, and of a class for which the list of Locations succeeds and has one of that name
-- which the index files under the class.
pub readiness_watches-Asks_iff :
    (V : Env) (r : Reporting.Reconciler) (e : Event) (s : V.reporting.State) (n : String)
    → ((m : String) → V.for_object m ≡ m ∷ [])
    → Asks (readiness_watches V r) e s n ↔ ConcernsReadiness V s e n
unfolding readiness_watches
readiness_watches-Asks_iff V r (location_changed manager_cache l) s n named =
    rw (named l.meta.name) (one_iff l.meta.name n)
readiness_watches-Asks_iff V r (location_changed source_cache l) s n named = never
readiness_watches-Asks_iff V r (location_changed hub_cache l) s n named = never
readiness_watches-Asks_iff V r (class_changed manager_cache c) s n named =
    last_iff (locations_naming_class V r c s).0 n _ (IsNaming-iff V r c s n)
readiness_watches-Asks_iff V r (class_changed source_cache c) s n named = never
readiness_watches-Asks_iff V r (class_changed hub_cache c) s n named = never
readiness_watches-Asks_iff V r (copy_changed o p) s n named = never
readiness_watches-Asks_iff V r (policy_changed o q) s n named = never
