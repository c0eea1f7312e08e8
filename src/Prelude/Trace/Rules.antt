-- ===== src/Prelude/Trace/Rules.antt =====
-- The rules for runs whose calls are justified by those before them, one for each operation.
use mathlib.Core.Path.{◌≡◌, refl}
use mathlib.Core.Bool.{Bool, true, false}
use mathlib.Core.List.{List, [], ◌∷◌, ◌++◌}
use locations.Prelude.Tests.{if◌then◌else◌}
use locations.Prelude.Effect.{
  runs, Except, ok, err, Action, resume, ◌>>=◌, query, note, pure, raise, wrap,
}
use locations.Prelude.Trace.Before.{onto, Justified, onto-append, Justified-append}

-- A run whose calls are justified, and which ends well only where the second predicate holds of its
-- answer and of the calls so far.
abbrev pub Holds :
    {S E C A : Type 0}
    → (List C → C → Type 0)
    → (A → List C → Type 0)
    → List C
    → Except E A × S × List C
    → Type 0
Holds J Post seen (ok a, s, l) = Justified J seen l × Post a (onto l seen)
Holds J Post seen (err e, s, l) = Justified J seen l

pub record Traced {S E C A : Type 0} (J : List C → C → Type 0) (Post : A → List C → Type 0)
    (seen : List C) (m : Action S E C A) : Type 0 where
  pub run : (s : S) → Holds J Post seen (m s)

prefix-Holds :
    {S E C B : Type 0} (J : List C → C → Type 0) (Post : B → List C → Type 0) (seen l : List C)
    (rest : Except E B × S × List C)
    → Justified J seen l
    → Holds J Post (onto l seen) rest
    → Holds J Post seen (rest.0, rest.1, l ++ rest.2)
prefix-Holds J Post seen l (ok b, s, m) h (k, p) =
    (Justified-append J l m seen h k, rw (onto-append l m seen) p)
prefix-Holds J Post seen l (err e, s, m) h k = Justified-append J l m seen h k

resume-Holds :
    {S E C A B : Type 0} (J : List C → C → Type 0) (Mid : A → List C → Type 0)
    (Post : B → List C → Type 0) (seen : List C) (run : Except E A × S × List C)
    (f : A → Action S E C B)
    → Holds J Mid seen run
    → ((a : A) (now : List C) → Mid a now → Traced J Post now (f a))
    → Holds J Post seen (resume run f)
resume-Holds J Mid Post seen (ok a, s, l) f (h, p) k =
    prefix-Holds J Post seen l (f a s) h ((k a (onto l seen) p).run s)
resume-Holds J Mid Post seen (err e, s, l) f h k = h

module _ {S E C A : Type 0} (J : List C → C → Type 0) where
  pub bind-Traced :
      {B : Type 0} (Mid : A → List C → Type 0) {Post : B → List C → Type 0} {seen : List C}
      {m : Action S E C A} {f : A → Action S E C B}
      → Traced J Mid seen m
      → ((a : A) (now : List C) → Mid a now → Traced J Post now (f a))
      → Traced J Post seen (m >>= f)
  unfolding runs
  bind-Traced Mid {Post} {seen} {m} {f} h k = record {
    run = λ s. resume-Holds J Mid Post seen (m s) f (h.run s) k;
  }

module _ {S E C A : Type 0} (J : List C → C → Type 0) {Post : A → List C → Type 0}
    {seen : List C} where
  pub pure-Traced : (a : A) → Post a seen → Traced J Post seen (pure {S = S} {E = E} a)
  unfolding runs
  pure-Traced a p = record { run = λ s. (tt, p) }

  pub raise-Traced : (e : E) → Traced J Post seen (raise {S = S} e)
  unfolding runs
  raise-Traced e = record { run = λ s. tt }

-- A query, and what follows it for each answer.
pub query-bind-Traced :
    {S E C A B : Type 0} (J : List C → C → Type 0) {Post : B → List C → Type 0} {seen : List C}
    (record_of : A → C) (q : S → A × S) (f : A → Action S E C B)
    → ((a : A) → J seen (record_of a))
    → ((a : A) → Traced J Post (record_of a ∷ seen) (f a))
    → Traced J Post seen (query record_of q >>= f)
unfolding runs
query-bind-Traced J {Post} {seen} record_of q f j k = record {
  run = λ s.
      let (a, s') = q s in
      prefix-Holds J Post seen (record_of a ∷ []) (f a s') (j a, tt) ((k a).run s');
}

wrap-Traced :
    {S E C F A : Type 0} (J : List C → C → Type 0) {Post : A → List C → Type 0} {seen : List C}
    (w : F → E) (r : Except F A)
    → ((a : A) → r ≡ ok a → Post a seen)
    → Traced J Post seen (wrap {S = S} w r)
unfolding runs
wrap-Traced J w (ok a) p = record { run = λ s. (tt, p a refl) }
wrap-Traced J w (err e) p = record { run = λ s. tt }

-- A query whose error is wrapped and returned.
pub request-Traced :
    {S E C F A : Type 0} (J : List C → C → Type 0) {Post : A → List C → Type 0} {seen : List C}
    (record_of : Except F A → C) (w : F → E) (q : S → Except F A × S)
    → ((r : Except F A) → J seen (record_of r))
    → ((a : A) → Post a (record_of (ok a) ∷ seen))
    → Traced J Post seen (query record_of q >>= wrap w)
request-Traced J {Post} {seen} record_of w q j p =
    query-bind-Traced J _ _ _ j λ r. wrap-Traced J w r λ a e. rw e (p a)

-- A call with no answer, and what follows it.
pub note-bind-Traced :
    {S E C B : Type 0} (J : List C → C → Type 0) {Post : B → List C → Type 0} {seen : List C}
    (c : C) (f : Unit {0} → Action S E C B)
    → J seen c
    → Traced J Post (c ∷ seen) (f tt)
    → Traced J Post seen (note c >>= f)
unfolding runs
note-bind-Traced J {Post} {seen} c f j k = record {
  run = λ s. prefix-Holds J Post seen (c ∷ []) (f tt s) (j, tt) (k.run s);
}

pub pure-bind-Traced :
    {S E C A B : Type 0} (J : List C → C → Type 0) {Post : B → List C → Type 0} {seen : List C}
    (a : A) (f : A → Action S E C B)
    → Traced J Post seen (f a)
    → Traced J Post seen (pure a >>= f)
unfolding runs
pure-bind-Traced J {Post} {seen} a f k = record {
  run = λ s. prefix-Holds J Post seen [] (f a s) tt (k.run s);
}

pub raise-bind-Traced :
    {S E C A B : Type 0} (J : List C → C → Type 0) {Post : B → List C → Type 0} {seen : List C}
    (e : E) (f : A → Action S E C B)
    → Traced J Post seen (raise e >>= f)
unfolding runs
raise-bind-Traced J e f = record { run = λ s. tt }

pub if-Traced :
    {S E C A : Type 0} (J : List C → C → Type 0) {Post : A → List C → Type 0} {seen : List C}
    (b : Bool) (m n : Action S E C A)
    → (b ≡ true → Traced J Post seen m)
    → (b ≡ false → Traced J Post seen n)
    → Traced J Post seen (if b then m else n)
if-Traced J true m n h k = h refl
if-Traced J false m n h k = k refl

weaken-Holds :
    {S E C A : Type 0} (J : List C → C → Type 0) (Mid Post : A → List C → Type 0) (seen : List C)
    (r : Except E A × S × List C)
    → ((a : A) (now : List C) → Mid a now → Post a now)
    → Holds J Mid seen r
    → Holds J Post seen r
weaken-Holds J Mid Post seen (ok a, s, l) k (j, p) = (j, k a _ p)
weaken-Holds J Mid Post seen (err e, s, l) k j = j

pub weaken :
    {S E C A : Type 0} (J : List C → C → Type 0) (Mid : A → List C → Type 0)
    {Post : A → List C → Type 0} {seen : List C} {m : Action S E C A}
    → ((a : A) (now : List C) → Mid a now → Post a now)
    → Traced J Mid seen m
    → Traced J Post seen m
weaken J Mid {Post} {seen} {m} k h = record {
  run = λ s. weaken-Holds J Mid Post seen (m s) k (h.run s);
}

-- A call with no answer.
pub note-Traced :
    {S E C : Type 0} (J : List C → C → Type 0) {Post : Unit {0} → List C → Type 0} {seen : List C}
    (c : C)
    → J seen c
    → Post tt (c ∷ seen)
    → Traced J Post seen (note {S = S} {E = E} c)
unfolding runs
note-Traced J c j p = record { run = λ s. ((j, tt), p) }

-- A justified run, as a list of calls.
pub Holds-Justified :
    {S E C A : Type 0} (J : List C → C → Type 0) (Post : A → List C → Type 0) (seen : List C)
    (run : Except E A × S × List C)
    → Holds J Post seen run
    → Justified J seen run.2
Holds-Justified J Post seen (ok a, s, l) h = h.0
Holds-Justified J Post seen (err e, s, l) h = h
