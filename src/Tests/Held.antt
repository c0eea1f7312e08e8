-- ===== src/Tests/Held.antt =====
-- A control plane of classes as a function from names, whose client does as documented.
use locations.Prelude.{
  String, Bool, true, false, not, any, select, Option, none, some, List, [], ◌∷◌, arith, ◌≡◌, refl,
  sym, ap, ◌==◌, eq_refl, if◌then◌else◌,
}
use locations.Prelude.Int.{pos}
use locations.Prelude.Effect.{Except, ok, err}
use locations.Prelude.Text.Trim.{trim_space}
use locations.Api.{Time, LocationClass, is_zero_time}
use locations.Class.Index.{location_class_finalizer, class_names}
use locations.Class.Client.{Env, Reconciler}
use locations.Class.Reconcile.{reconcile}
use locations.Class.World.{Status, View, World, IsLookup, naming, put_class, status, after_patch}
use locations.Class.World.Kept.{
  IsHeld, IsFree, Keeps, run, here, later, Keeps-IsHeld, reconcile-IsFree,
}
use locations.Tests.Memory.{Failure, not_found, place}
use locations.Tests.Classes.{class_of, with_finalizers}

abbrev finalizers_for : Bool → Bool → List String
finalizers_for true true = location_class_finalizer ∷ "other" ∷ []
finalizers_for true false = location_class_finalizer ∷ []
finalizers_for false true = "other" ∷ []
finalizers_for false false = []

abbrev deleted_at : Bool → Option Time
deleted_at true = some (pos 7)
deleted_at false = none

-- A class with this name and this status.
abbrev object_of : String → Status → LocationClass
object_of n c =
    let base =
      with_finalizers (finalizers_for c.held c.pinned) (class_of (deleted_at c.deleting)) in
    record base { meta = record (base.meta) { name = n } }

abbrev answer_of : String → Option Status → Except Failure LocationClass
answer_of n none = err not_found
answer_of n (some c) = ok (object_of n c)

abbrev status_of : LocationClass → Status
status_of c = record {
  held = any (λ n. n == location_class_finalizer) c.meta.finalizers;
  deleting = not (is_zero_time c.meta.deletion_timestamp);
  pinned = any (λ n. not (n == location_class_finalizer)) c.meta.finalizers;
}

abbrev client : Env
client = record {
  State = View;
  Failure = Failure;
  is_not_found = λ e. true;
  get = λ n v. (answer_of n (v.classes n), v);
  list_matching = λ field n v. (ok (naming n v.locations), v);
  patch =
      λ old new v. (ok tt, put_class old.meta.name (after_patch (status_of old) (status_of new)) v);
  contains_finalizer = λ c f. any (λ n. n == f) c.meta.finalizers;
  add_finalizer = λ c f. with_finalizers (f ∷ c.meta.finalizers) c;
  remove_finalizer = λ c f. with_finalizers (select (λ n. not (n == f)) c.meta.finalizers) c;
}

others-select :
    (f : String) (names : List String)
    → any (λ n. not (n == f)) (select (λ n. not (n == f)) names) ≡ any (λ n. not (n == f)) names
others-select f [] = refl
others-select f (n ∷ names) = ground (arith, others-select f names)

any-select :
    (f : String) (names : List String)
    → any (λ n. n == f) (select (λ n. not (n == f)) names) ≡ false
any-select f [] = refl
any-select f (n ∷ names) = ground (arith, any-select f names)

object_of-status : (n : String) (c : Status) → status client (object_of n c) ≡ c
object_of-status n c = by_flags c.held c.deleting c.pinned
  where
    by_flags :
        (held deleting pinned : Bool)
        → status client (object_of n (record { held = held; deleting = deleting; pinned = pinned }))
          ≡ record { held = held; deleting = deleting; pinned = pinned }
    by_flags true true true = refl
    by_flags true true false = refl
    by_flags true false true = refl
    by_flags true false false = refl
    by_flags false true true = refl
    by_flags false true false = refl
    by_flags false false true = refl
    by_flags false false false = refl

class-IsLookup : (n : String) (o : Option Status) → IsLookup client n (answer_of n o) o
class-IsLookup n none = (refl, refl)
class-IsLookup n (some c) = (ap some (sym (object_of-status n c)), refl)

abbrev world : World client
world = record {
  view = λ v. v;
  get = λ n v s e. rw (sym e) (refl, class-IsLookup n (s.classes n));
  list_matching = λ n v s e. rw (sym e) (refl, refl);
  patch = λ old new v there may s e. rw (sym e) (refl, refl);
  status-add = λ c. rw (eq_refl location_class_finalizer) refl;
  status-remove = λ c.
      rw
        (
          any-select location_class_finalizer c.meta.finalizers,
          others-select location_class_finalizer c.meta.finalizers,
        )
        refl;
  status-annotate = λ c m. refl;
}

-- The deletion of "edge" is asked for while "fra" names it.
abbrev named_class : View
named_class = record {
  classes = λ n.
      if n == "edge" then some (record { held = true; deleting = true; pinned = false }) else none;
  locations = place "fra" "FRA" ∷ [];
}

-- Nothing names it any more.
abbrev unnamed_class : View
unnamed_class = record named_class { locations = [] }

abbrev reconciler : Reconciler
reconciler = record { recorder = true }

named_class-Keeps :
    Keeps client world reconciler "edge" named_class
      (reconcile client reconciler "edge" named_class).1
unfolding class_names trim_space
named_class-Keeps = later here refl (run "edge" refl)

Keeps-IsHeld_example : IsHeld "edge" (reconcile client reconciler "edge" named_class).1
Keeps-IsHeld_example =
    Keeps-IsHeld client world reconciler "edge" named_class-Keeps
      (record { held = true; deleting = true; pinned = false }, refl, refl)

reconcile-IsFree_example : IsFree "edge" false (reconcile client reconciler "edge" unnamed_class).1
reconcile-IsFree_example =
    reconcile-IsFree client world reconciler "edge" unnamed_class
      (record { held = true; deleting = true; pinned = false }) refl refl refl refl
