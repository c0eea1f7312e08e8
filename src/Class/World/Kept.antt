-- ===== src/Class/World/Kept.antt =====
-- The finalizer of a class over any sequence of runs and changes by others.
use mathlib.Core.Path.{subst}
use locations.Prelude.{
  eq_refl, String, Bool, true, false, Option, none, some, List, ◌≡◌, refl, sym, ap, ◌∙◌, ◌==◌,
  eq_iff, is_empty, if◌then◌else◌, Bool-cases, inl, inr,
}
use locations.Prelude.Effect.{Except, ok, err}
use locations.Prelude.Steps.{Leaves}
use locations.Class.Client.{Env, Call, Error, Reconciler, Result}
use locations.Class.Reconcile.{reconcile}
use locations.Class.World.{Status, View, World, naming, settled, surviving, settle, next}
use locations.Class.World.Refines.{reconcile-refines_next}

-- The class is there, and holds the finalizer.
abbrev pub IsHeld : String → View → Type 0
IsHeld n v = (c : Status) × (v.classes n ≡ some c) × (c.held ≡ true)

-- The index files no Location under it.
abbrev pub IsUnnamed : String → View → Type 0
IsUnnamed n v = is_empty (naming n v.locations) ≡ true

-- The class is gone, or still there for a finalizer of others alone.
abbrev pub IsFree : String → Bool → View → Type 0
IsFree n pinned v =
    v.classes n
    ≡ (if pinned then some (record { held = false; deleting = true; pinned = true }) else none)

settled-IsHeld :
    (c : Status) (unnamed : Bool)
    → c.held ≡ true
    → unnamed ≡ false
    → (d : Status) × (settled c unnamed ≡ some d) × (d.held ≡ true)
settled-IsHeld c unnamed held named = elim (Bool-cases c.deleting) [
  | inl dying ↦ (c, rw (named, dying) refl, held)
  | inr live ↦ (record c { held = true }, rw (named, live) refl, refl)
]

settle-IsHeld :
    (n m : String) (o : Option Status) (v : View)
    → v.classes m ≡ o
    → is_empty (naming n v.locations) ≡ false
    → IsHeld n v
    → IsHeld n (settle m o v)
settle-IsHeld n m none v e named held = held
settle-IsHeld n m (some d) v e named (c, there, held) = elim (Bool-cases (m == n)) [
  | inl same ↦
      let q : m ≡ n = (eq_iff m n).0 same in
      let p : some d ≡ some c = sym e ∙ (ap v.classes q ∙ there) in
      let (s, settles, kept) =
        settled-IsHeld d (is_empty (naming m v.locations)) (ap held_of p ∙ held)
          (ap (λ k. is_empty (naming k v.locations)) q ∙ named) in
      (s, rw same settles, kept)
  | inr apart ↦ (c, rw apart there, held)
]
  where
    held_of : Option Status → Bool
    held_of none = true
    held_of (some x) = x.held

module _ (V : Env) (W : World V) (r : Reconciler) where
  from_Leaves :
      (w : View) (run : Except (Error V.Failure) Result × V.State × List (Call V.Failure))
      → Leaves W.view (λ _ u. u ≡ w) (λ _. ⊥) run
      → W.view run.1 ≡ w
  from_Leaves w (ok a, s, l) h = h
  from_Leaves w (err e, s, l) h = absurd h

  view-reconcile :
      (name : String) (s : V.State) → W.view (reconcile V r name s).1 ≡ next name (W.view s)
  view-reconcile name s = from_Leaves _ (reconcile V r name s) (reconcile-refines_next V W r name s)

  module _ (n : String) where
    -- A run for some name, or a change by others in which the class keeps what it holds.
    pub data Step (s t : V.State) : Type 0 where
      run : (name : String) → t ≡ (reconcile V r name s).1 → Step s t
      outside : (IsHeld n (W.view s) → IsHeld n (W.view t)) → Step s t

    -- A sequence of steps, in which the index files some Location under the class before each step.
    pub data Keeps (s : V.State) : V.State → Type 0 where
      here : Keeps s s
      later :
          {t u : V.State}
          → Keeps s t
          → is_empty (naming n (W.view t).locations) ≡ false
          → Step t u
          → Keeps s u

    step-IsHeld :
        (s t : V.State)
        → is_empty (naming n (W.view s).locations) ≡ false
        → Step s t
        → IsHeld n (W.view s)
        → IsHeld n (W.view t)
    unfolding next
    step-IsHeld s t named (run name e) held =
        subst (IsHeld n) (sym (ap W.view e ∙ view-reconcile name s))
          (settle-IsHeld n name ((W.view s).classes name) (W.view s) refl named held)
    step-IsHeld s t named (outside change) held = change held

    -- Over every sequence of runs of the class controller, each with the client's calls succeeding as
    -- documented, and of changes by others between the runs that take neither the class nor its
    -- finalizer away: a class that holds the finalizer at the start holds it at the end, as long as
    -- the index files some Location under the class before each of the steps, whether or not its
    -- deletion is asked for.
    pub Keeps-IsHeld : {s t : V.State} → Keeps s t → IsHeld n (W.view s) → IsHeld n (W.view t)
    Keeps-IsHeld here held = held
    Keeps-IsHeld (later {t} {u} before named step) held =
        step-IsHeld t u named step (Keeps-IsHeld before held)

  -- One run of the class controller for a class that is being deleted and holds the finalizer, with the
  -- client's calls succeeding as documented, where the index files no Location under the class: the
  -- class is gone after the run, unless finalizers of others are left, and then it is there without
  -- ours.
  pub reconcile-IsFree :
      (name : String) (s : V.State) (c : Status)
      → (W.view s).classes name ≡ some c
      → c.deleting ≡ true
      → c.held ≡ true
      → IsUnnamed name (W.view s)
      → IsFree name c.pinned (W.view (reconcile V r name s).1)
  unfolding next
  reconcile-IsFree name s c there dying held unnamed =
      ap (λ u. u.classes name) (view-reconcile name s)
      ∙ rw (there, unnamed, dying, held, eq_refl name) (by_pin c.pinned)
    where
      by_pin :
          (b : Bool)
          → surviving (record { held = false; deleting = true; pinned = b })
            ≡ (if b then some (record { held = false; deleting = true; pinned = true }) else none)
      by_pin true = refl
      by_pin false = refl
