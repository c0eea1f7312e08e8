-- ===== src/Prelude/Trace/Made.antt =====
-- Which calls an action makes, whatever the outside world answers.
use mathlib.Core.Path.{◌≡◌, refl}
use mathlib.Core.Bool.{Bool, true, false}
use mathlib.Core.List.{List}
use locations.Prelude.Tests.{if◌then◌else◌}
use locations.Prelude.Lists.{All, All-append, All-map}
use locations.Prelude.Effect.{
  runs, Except, ok, err, Action, resume, ◌>>=◌, query, note, pure, raise, wrap, attempt,
}

-- Every call of every run has the property.
pub record Emits {S E C A : Type 0} (Q : C → Type 0) (m : Action S E C A) : Type 0 where
  pub all : (s : S) → All Q (m s).2

resume-All :
    {S E C A B : Type 0} (Q : C → Type 0) (run : Except E A × S × List C) (f : A → Action S E C B)
    → All Q run.2
    → ((a : A) → Emits Q (f a))
    → All Q (resume run f).2
resume-All Q (ok a, s, l) f h k = All-append Q l (f a s).2 h ((k a).all s)
resume-All Q (err e, s, l) f h k = h

pub bind-Emits :
    {S E C A B : Type 0} (Q : C → Type 0) (m : Action S E C A) (f : A → Action S E C B)
    → Emits Q m
    → ((a : A) → Emits Q (f a))
    → Emits Q (m >>= f)
unfolding runs
bind-Emits Q m f h k = record { all = λ s. resume-All Q (m s) f (h.all s) k }

pub query-Emits :
    {S E C A : Type 0} (Q : C → Type 0) (record_of : A → C) (q : S → A × S)
    → ((a : A) → Q (record_of a))
    → Emits Q (query {E = E} record_of q)
unfolding runs
query-Emits Q record_of q h = record { all = λ s. (h (q s).0, tt) }

pub wrap-Emits :
    {S E C F A : Type 0} (Q : C → Type 0) (w : F → E) (r : Except F A) → Emits Q (wrap {S = S} w r)
unfolding runs
wrap-Emits Q w (ok a) = record { all = λ s. tt }
wrap-Emits Q w (err e) = record { all = λ s. tt }

pub request-Emits :
    {S E C F A : Type 0} (Q : C → Type 0) (record_of : Except F A → C) (w : F → E)
    (q : S → Except F A × S)
    → ((r : Except F A) → Q (record_of r))
    → Emits Q (query record_of q >>= wrap w)
request-Emits Q record_of w q h = bind-Emits Q _ _ (query-Emits Q record_of q h) (wrap-Emits Q w)

pub note-Emits : {S E C : Type 0} (Q : C → Type 0) (c : C) → Q c → Emits Q (note {S = S} {E = E} c)
unfolding runs
note-Emits Q c h = record { all = λ s. (h, tt) }

pub pure-Emits : {S E C A : Type 0} (Q : C → Type 0) (a : A) → Emits Q (pure {S = S} {E = E} a)
unfolding runs
pure-Emits Q a = record { all = λ s. tt }

pub raise-Emits : {S E C A : Type 0} (Q : C → Type 0) (e : E) → Emits Q (raise {S = S} {A = A} e)
unfolding runs
raise-Emits Q e = record { all = λ s. tt }

pub attempt-Emits :
    {S E C A : Type 0} (Q : C → Type 0) (m : Action S E C A) → Emits Q m → Emits Q (attempt m)
unfolding runs
attempt-Emits Q m h = record { all = λ s. h.all s }

pub weaken-Emits :
    {S E C A : Type 0} (P Q : C → Type 0) (m : Action S E C A)
    → ((c : C) → P c → Q c)
    → Emits P m
    → Emits Q m
weaken-Emits P Q m f h = record { all = λ s. All-map P Q (m s).2 f (h.all s) }

pub if-Emits :
    {S E C A : Type 0} (Q : C → Type 0) (b : Bool) (m n : Action S E C A)
    → (b ≡ true → Emits Q m)
    → (b ≡ false → Emits Q n)
    → Emits Q (if b then m else n)
if-Emits Q true m n h k = h refl
if-Emits Q false m n h k = k refl
