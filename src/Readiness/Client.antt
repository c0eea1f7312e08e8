-- ===== src/Readiness/Client.antt =====
-- What the readiness controller and the controller that accepts classes talk to.
use locations.Prelude.{ℕ, String, Bool, List, if◌then◌else◌}
use locations.Prelude.Effect.{Except, Action, query, wrap, note, pure, ◌>>=◌}
use locations.Api.{Condition, Location, LocationClass}
use locations.Metrics.{MetricCall}

pub record Env : Type 1 where
  pub State : Type 0
  pub Failure : Type 0
  -- `apierrors.IsNotFound`
  pub is_not_found : Failure → Bool
  pub get_location : String → State → Except Failure Location × State
  pub get_class : String → State → Except Failure LocationClass × State
  pub list_locations : State → Except Failure (List Location) × State
  -- a merge patch of the status from the first object to the second
  pub patch_location_status : Location → Location → State → Except Failure (Unit {0}) × State
  pub patch_class_status : LocationClass → LocationClass → State → Except Failure (Unit {0}) × State
  -- `meta.SetStatusCondition`: the new conditions, and whether they have changed
  pub set_status_condition : List Condition → Condition → State → (List Condition × Bool) × State
  -- `strconv.IsPrint` above U+00FF
  pub is_print : ℕ → Bool

pub data Call (F : Type 0) : Type 0 where
  got_location : String → Except F Location → Call F
  got_class : String → Except F LocationClass → Call F
  listed_locations : Except F (List Location) → Call F
  compared_condition : Condition → List Condition × Bool → Call F
  patched_location : Location → Location → Except F (Unit {0}) → Call F
  patched_class : LocationClass → LocationClass → Except F (Unit {0}) → Call F
  metric : MetricCall → Call F
  -- `Recorder.Eventf` on the object of this name: type, reason, action and message
  event : (name type reason action message : String) → Call F

pub data Error (F : Type 0) : Type 0 where
  reading_location : String → F → Error F
  reading_class : String → F → Error F
  reporting : String → F → Error F
  accepting : String → F → Error F
  listing : F → Error F

-- The two reconcilers have the same fields.
pub record Reconciler : Type 0 where
  pub controller_name : String
  pub recorder : Bool

abbrev pub M : Env → Type 0 → Type 0
M V A = Action V.State (Error V.Failure) (Call V.Failure) A

module _ (V : Env) where
  abbrev pub metric_call : MetricCall → M V (Unit {0})
  metric_call c = note (Call.metric c)

  -- A client call whose error is wrapped and returned.
  abbrev pub request :
      {A : Type 0}
      → (Except V.Failure A → Call V.Failure)
      → (V.Failure → Error V.Failure)
      → (V.State → Except V.Failure A × V.State)
      → M V A
  request record_of w q = query record_of q >>= wrap w

  -- `(*LocationReadinessReconciler).event`
  unfoldable pub send_event :
      Reconciler → (name type reason action message : String) → M V (Unit {0})
  send_event r name type reason action message =
      if r.recorder then note (Call.event name type reason action message) else pure (tt {0})
