-- ===== src/Tests/Classes.antt =====
-- The controllers of classes and of readiness over a small store.
use locations.Prelude.{
  String, true, false, not, any, Option, none, some, List, [], ◌∷◌, ◌≡◌, ◌≢◌, ◌↔◌, ◌==◌,
  if◌then◌else◌, select,
}
use locations.Prelude.Int.{pos}
use locations.Prelude.Effect.{Except, ok, err}
use locations.Prelude.Text.Trim.{trim_space}
use locations.Class.Outcome
use locations.Class.Outcome.{reconcile-Settled}
use locations.Readiness.Outcome as Reported
use locations.Prelude.Trace.{Some, Ended, Justified}
use locations.Api.{Time, Location, LocationClass}
use locations.Class.Index.{class_names, location_class_finalizer}
use locations.Class.Index.Names.{class_names_iff}
use locations.Class.Client
use locations.Class.Reconcile
use locations.Class.Finalizer
use locations.Class.Finalizer.{reconcile-Guarded}
use locations.Readiness.Client as Reporting
use locations.Readiness.Evaluate.{evaluate}
use locations.Readiness.Report
use locations.Readiness.Accepted
use locations.Readiness.Claimed
use locations.Readiness.Claimed.{reconcile-Claimed}
use locations.Readiness.Ready.{IsReady, IsBacked, evaluate-IsReady_iff}
use locations.Readiness.Adopted
use locations.Readiness.Accepting
use locations.Readiness.Adopted.{reconcile-Adopted}
use locations.Tests.Memory.{place}

pub data Failure : Type 0 where
  not_found : Failure

pub record Store : Type 0 where
  pub locations : List Location
  pub classes : List LocationClass

abbrev find : String → List LocationClass → Except Failure LocationClass
find name [] = err not_found
find name (c ∷ cs) = if c.meta.name == name then ok c else find name cs

abbrev find_location : String → List Location → Except Failure Location
find_location name [] = err not_found
find_location name (l ∷ ls) = if l.meta.name == name then ok l else find_location name ls

abbrev pub with_finalizers : List String → LocationClass → LocationClass
with_finalizers names c = record c { meta = record (c.meta) { finalizers = names } }

abbrev memory : Client.Env
memory = record {
  State = Store;
  Failure = Failure;
  is_not_found = λ _. true;
  get = λ name s. (find name s.classes, s);
  list_matching =
      λ field value s. (ok (select (λ l. any (λ n. n == value) (class_names l)) s.locations), s);
  patch = λ old new s. (ok tt, record s { classes = new ∷ [] });
  contains_finalizer = λ c f. any (λ n. n == f) c.meta.finalizers;
  add_finalizer = λ c f. with_finalizers (f ∷ c.meta.finalizers) c;
  remove_finalizer = λ c f. with_finalizers (select (λ n. not (n == f)) c.meta.finalizers) c;
}

abbrev pub reporting : Reporting.Env
reporting = record {
  State = Store;
  Failure = Failure;
  is_not_found = λ _. true;
  get_location = λ name s. (find_location name s.locations, s);
  get_class = λ name s. (find name s.classes, s);
  list_locations = λ s. (ok s.locations, s);
  patch_location_status = λ old new s. (ok tt, record s { locations = new ∷ [] });
  patch_class_status = λ old new s. (ok tt, record s { classes = new ∷ [] });
  set_status_condition = λ conditions condition s. ((condition ∷ [], true), s);
  is_print = λ c. false;
}

-- A class of the controller "milo.io/edge".
abbrev pub class_of : Option Time → LocationClass
class_of deleted = record {
  meta = record {
    name = "edge";
    labels = [];
    annotations = [];
    finalizers = location_class_finalizer ∷ [];
    generation = 1;
    deletion_timestamp = deleted;
    managed_fields = [];
  };
  spec = record { controller_name = "milo.io/edge"; parameters_ref = none };
  status = record { conditions = [] };
}

-- The class "edge" is being deleted, and nothing names it.
abbrev dying : Store
dying = record { locations = []; classes = class_of (some (pos 7)) ∷ [] }

abbrev pub living : Store
living = record { locations = place "fra" "FRA" ∷ []; classes = class_of none ∷ [] }

abbrev pub reconciler : Reporting.Reconciler
reconciler = record { controller_name = "milo.io/edge"; recorder = true }

reconcile-Guarded_example :
    Justified
      (Finalizer.Justification memory "edge")
      []
      (Reconcile.reconcile memory (record { recorder = true }) "edge" dying).2
reconcile-Guarded_example = reconcile-Guarded memory "edge" (record { recorder = true }) dying

reconcile-Settled_example :
    Ended
      (λ result now. Outcome.Outcome memory "edge" result now)
      (λ now. Some (Outcome.HasFailed memory) now)
      []
      (Reconcile.reconcile memory (record { recorder = true }) "edge" dying)
reconcile-Settled_example = reconcile-Settled memory "edge" (record { recorder = true }) dying

class_names_iff_example :
    (class_names (place "fra" "FRA") ≡ "edge" ∷ [])
    ↔ ((trim_space "" ≡ "") × (trim_space "edge" ≡ "edge") × (◌≢◌ {A = String} "edge" ""))
class_names_iff_example = class_names_iff (place "fra" "FRA") "edge"

reconcile-Claimed_example :
    Justified
      (Claimed.Justification reporting reconciler "fra")
      []
      (Report.reconcile reporting reconciler "fra" living).2
reconcile-Claimed_example = reconcile-Claimed reporting reconciler "fra" living

evaluate-IsReady_iff_example :
    IsReady reporting reconciler
      (place "fra" "FRA")
      (evaluate reporting reconciler (place "fra" "FRA") living).0
    ↔ IsBacked reporting reconciler (place "fra" "FRA") living
evaluate-IsReady_iff_example = evaluate-IsReady_iff reporting reconciler (place "fra" "FRA") living

reconcile-Adopted_example :
    Justified
      (Adopted.Justification reporting reconciler "edge")
      []
      (Accepted.reconcile reporting reconciler "edge" living).2
reconcile-Adopted_example = reconcile-Adopted reporting reconciler "edge" living
