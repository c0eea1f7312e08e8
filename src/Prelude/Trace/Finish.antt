-- ===== src/Prelude/Trace/Finish.antt =====
-- How a run ends: what holds of the answer and the calls of a run that ends well, and of the calls of
-- one that ends in an error.
use mathlib.Core.Path.{◌≡◌, refl}
use mathlib.Core.Bool.{Bool, true, false}
use mathlib.Core.List.{List, [], ◌∷◌, ◌++◌}
use locations.Prelude.Tests.{if◌then◌else◌}
use locations.Prelude.Effect.{
  runs, Except, ok, err, Action, resume, ◌>>=◌, query, note, pure, raise, wrap, attempt,
}
use locations.Prelude.Trace.Before.{onto, onto-append}

abbrev pub Ended :
    {S E C A : Type 0}
    → (A → List C → Type 0)
    → (List C → Type 0)
    → List C
    → Except E A × S × List C
    → Type 0
Ended Good Bad seen (ok a, s, l) = Good a (onto l seen)
Ended Good Bad seen (err e, s, l) = Bad (onto l seen)

pub record Ends {S E C A : Type 0} (Good : A → List C → Type 0) (Bad : List C → Type 0)
    (seen : List C) (m : Action S E C A) : Type 0 where
  pub run : (s : S) → Ended Good Bad seen (m s)

prefix-Ended :
    {S E C B : Type 0} (Good : B → List C → Type 0) (Bad : List C → Type 0) (seen l : List C)
    (rest : Except E B × S × List C)
    → Ended Good Bad (onto l seen) rest
    → Ended Good Bad seen (rest.0, rest.1, l ++ rest.2)
prefix-Ended Good Bad seen l (ok b, s, m) p = rw (onto-append l m seen) p
prefix-Ended Good Bad seen l (err e, s, m) p = rw (onto-append l m seen) p

module _ {S E C : Type 0} (Bad : List C → Type 0) where
  resume-Ended :
      {A B : Type 0} (Mid : A → List C → Type 0) (Good : B → List C → Type 0) (seen : List C)
      (run : Except E A × S × List C) (f : A → Action S E C B)
      → Ended Mid Bad seen run
      → ((a : A) (now : List C) → Mid a now → Ends Good Bad now (f a))
      → Ended Good Bad seen (resume run f)
  resume-Ended Mid Good seen (ok a, s, l) f h k =
      prefix-Ended Good Bad seen l (f a s) ((k a (onto l seen) h).run s)
  resume-Ended Mid Good seen (err e, s, l) f h k = h

  pub bind-Ends :
      {A B : Type 0} (Mid : A → List C → Type 0) {Good : B → List C → Type 0} {seen : List C}
      {m : Action S E C A} {f : A → Action S E C B}
      → Ends Mid Bad seen m
      → ((a : A) (now : List C) → Mid a now → Ends Good Bad now (f a))
      → Ends Good Bad seen (m >>= f)
  unfolding runs
  bind-Ends Mid {Good} {seen} {m} {f} h k = record {
    run = λ s. resume-Ended Mid Good seen (m s) f (h.run s) k;
  }

  pub pure-Ends :
      {A : Type 0} {Good : A → List C → Type 0} {seen : List C} (a : A)
      → Good a seen
      → Ends Good Bad seen (pure {S = S} {E = E} a)
  unfolding runs
  pure-Ends a p = record { run = λ s. p }

  pub raise-Ends :
      {A : Type 0} {Good : A → List C → Type 0} {seen : List C} (e : E)
      → Bad seen
      → Ends Good Bad seen (raise {S = S} e)
  unfolding runs
  raise-Ends e p = record { run = λ s. p }

  pub note-Ends :
      {Good : Unit {0} → List C → Type 0} {seen : List C} (c : C)
      → Good tt (c ∷ seen)
      → Ends Good Bad seen (note {S = S} {E = E} c)
  unfolding runs
  note-Ends c p = record { run = λ s. p }

  pub query-bind-Ends :
      {A B : Type 0} {Good : B → List C → Type 0} {seen : List C} (record_of : A → C)
      (q : S → A × S) (f : A → Action S E C B)
      → ((a : A) → Ends Good Bad (record_of a ∷ seen) (f a))
      → Ends Good Bad seen (query record_of q >>= f)
  unfolding runs
  query-bind-Ends {Good} {seen} record_of q f k = record {
    run = λ s.
        let (a, s') = q s in prefix-Ended Good Bad seen (record_of a ∷ []) (f a s') ((k a).run s');
  }

  wrap-Ends :
      {F A : Type 0} {Good : A → List C → Type 0} {seen : List C} (w : F → E) (r : Except F A)
      → ((a : A) → r ≡ ok a → Good a seen)
      → ((e : F) → r ≡ err e → Bad seen)
      → Ends Good Bad seen (wrap {S = S} w r)
  unfolding runs
  wrap-Ends w (ok a) p q = record { run = λ s. p a refl }
  wrap-Ends w (err e) p q = record { run = λ s. q e refl }

  pub request-Ends :
      {F A : Type 0} {Good : A → List C → Type 0} {seen : List C} (record_of : Except F A → C)
      (w : F → E) (q : S → Except F A × S)
      → ((a : A) → Good a (record_of (ok a) ∷ seen))
      → ((e : F) → Bad (record_of (err e) ∷ seen))
      → Ends Good Bad seen (query record_of q >>= wrap w)
  request-Ends record_of w q p b =
      query-bind-Ends _ _ _ λ r. wrap-Ends w r (λ a e. rw e (p a)) (λ x e. rw e (b x))

  pub if-Ends :
      {A : Type 0} {Good : A → List C → Type 0} {seen : List C} (b : Bool) (m n : Action S E C A)
      → (b ≡ true → Ends Good Bad seen m)
      → (b ≡ false → Ends Good Bad seen n)
      → Ends Good Bad seen (if b then m else n)
  if-Ends true m n h k = h refl
  if-Ends false m n h k = k refl

  -- An action that handles its errors ends well, and keeps what each call keeps.
  pub attempt-Ends :
      {A : Type 0} (P : List C → Type 0) {seen : List C} (m : Action S E C A)
      → ((c : C) (now : List C) → P now → P (c ∷ now))
      → P seen
      → Ends (λ a. P) Bad seen (attempt m)
  unfolding runs
  attempt-Ends P {seen} m keep p = record { run = λ s. kept (m s).2 seen p }
    where
      kept : (l now : List C) → P now → P (onto l now)
      kept [] now h = h
      kept (c ∷ l) now h = kept l (c ∷ now) (keep c now h)

-- What is known of an error that is handled as a value.
abbrev pub Either :
    {E C A : Type 0} → (A → List C → Type 0) → (List C → Type 0) → Except E A → List C → Type 0
Either Good Bad (ok a) now = Good a now
Either Good Bad (err e) now = Bad now

handled :
    {S E C A : Type 0} (Good : A → List C → Type 0) (Bad Worse : List C → Type 0) (seen : List C)
    (run : Except E A × S × List C)
    → Ended Good Bad seen run
    → Ended {E = E} (Either {E = E} Good Bad) Worse seen (ok run.0, run.1, run.2)
handled Good Bad Worse seen (ok a, s, l) h = h
handled Good Bad Worse seen (err e, s, l) h = h

pub handle-Ends :
    {S E C A : Type 0} {Good : A → List C → Type 0} (Bad Worse : List C → Type 0) {seen : List C}
    {m : Action S E C A}
    → Ends Good Bad seen m
    → Ends (Either {E = E} Good Bad) Worse seen (attempt m)
unfolding runs
handle-Ends {Good} Bad Worse {seen} {m} h = record {
  run = λ s. handled Good Bad Worse seen (m s) (h.run s);
}

-- What was known before a run, and is kept by each call, is known after it.
module _ {C : Type 0} (P : List C → Type 0)
    (keep : (c : C) (now : List C) → P now → P (c ∷ now)) where
  kept-onto : (l now : List C) → P now → P (onto l now)
  kept-onto [] now h = h
  kept-onto (c ∷ l) now h = kept-onto l (c ∷ now) (keep c now h)

  frame-Ended :
      {S E A : Type 0} (Good : A → List C → Type 0) (Bad : List C → Type 0) (seen : List C)
      (run : Except E A × S × List C)
      → P seen
      → Ended Good Bad seen run
      → Ended (λ a now. P now × Good a now) Bad seen run
  frame-Ended Good Bad seen (ok a, s, l) p h = (kept-onto l seen p, h)
  frame-Ended Good Bad seen (err e, s, l) p h = h

  pub frame-Ends :
      {S E A : Type 0} {Good : A → List C → Type 0} {Bad : List C → Type 0} {seen : List C}
      {m : Action S E C A}
      → P seen
      → Ends Good Bad seen m
      → Ends (λ a now. P now × Good a now) Bad seen m
  frame-Ends {Good} {Bad} {seen} {m} p h = record {
    run = λ s. frame-Ended Good Bad seen (m s) p (h.run s);
  }
