-- ===== src/Class/Client.antt =====
-- What the class controller talks to.
use locations.Prelude.{String, Bool, List, if◌then◌else◌}
use locations.Prelude.Effect.{Except, Action, query, wrap, note, pure, ◌>>=◌}
use locations.Api.{Location, LocationClass}
use locations.Config.{Duration}
use locations.Metrics.{MetricCall}

pub record Env : Type 1 where
  pub State : Type 0
  pub Failure : Type 0
  -- `apierrors.IsNotFound`
  pub is_not_found : Failure → Bool
  pub get : String → State → Except Failure LocationClass × State
  -- `List` of Locations with `MatchingFields{field: value}`
  pub list_matching : String → String → State → Except Failure (List Location) × State
  -- a merge patch from the first object to the second
  pub patch : LocationClass → LocationClass → State → Except Failure (Unit {0}) × State
  -- `controllerutil`
  pub contains_finalizer : LocationClass → String → Bool
  pub add_finalizer : LocationClass → String → LocationClass
  pub remove_finalizer : LocationClass → String → LocationClass

pub data Call (F : Type 0) : Type 0 where
  got_class : String → Except F LocationClass → Call F
  listed_locations : String → Except F (List Location) → Call F
  patched_class : LocationClass → LocationClass → Except F (Unit {0}) → Call F
  metric : MetricCall → Call F
  -- `Recorder.Eventf` on the class of this name: type, reason, action and message
  event : (name type reason action message : String) → Call F

pub data Error (F : Type 0) : Type 0 where
  reading_class : String → F → Error F
  holding : String → F → Error F
  releasing : String → F → Error F
  listing : String → F → Error F
  recording_blocked : F → Error F

-- `LocationClassReconciler`: whether it has a recorder.
pub record Reconciler : Type 0 where
  pub recorder : Bool

-- `ctrl.Result`
pub record Result : Type 0 where
  pub requeue_after : Duration

abbrev pub M : Env → Type 0 → Type 0
M V A = Action V.State (Error V.Failure) (Call V.Failure) A

module _ (V : Env) where
  abbrev pub metric_call : MetricCall → M V (Unit {0})
  metric_call c = note (Call.metric c)

  -- A client call whose error is wrapped and returned.
  abbrev pub request :
      {A : Type 0}
      → (Except V.Failure A → Call V.Failure)
      → (V.Failure → Error V.Failure)
      → (V.State → Except V.Failure A × V.State)
      → M V A
  request record_of w q = query record_of q >>= wrap w

  -- `(*LocationClassReconciler).event`
  unfoldable pub send_event :
      Reconciler → (name type reason action message : String) → M V (Unit {0})
  send_event r name type reason action message =
      if r.recorder then note (Call.event name type reason action message) else pure (tt {0})
