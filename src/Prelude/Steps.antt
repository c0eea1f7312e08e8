-- ===== src/Prelude/Steps.antt =====
-- What a run does to a view of the outside world: a logic for actions over states of which only a
-- view is known.
use mathlib.Core.Path.{◌≡◌, refl}
use mathlib.Core.Bool.{Bool, true, false}
use locations.Prelude.Tests.{if◌then◌else◌}
use mathlib.Core.List.{List, [], ◌∷◌, ◌++◌}
use locations.Prelude.Effect.{
  runs, Except, ok, err, Action, resume, ◌>>=◌, query, note, pure, raise, wrap, attempt,
}

-- A postcondition of a run: of its answer and the view after it, or of the view after an error.
abbrev pub Leaves :
    {S U E C A : Type 0}
    → (S → U)
    → (A → U → Type 0)
    → (U → Type 0)
    → Except E A × S × List C
    → Type 0
Leaves view Good Bad (ok a, s, l) = Good a (view s)
Leaves view Good Bad (err e, s, l) = Bad (view s)

-- From every state with this view, the run ends in the postcondition.
pub record Takes {S U E C A : Type 0} (view : S → U) (Good : A → U → Type 0) (Bad : U → Type 0)
    (v : U) (m : Action S E C A) : Type 0 where
  pub run : (s : S) → view s ≡ v → Leaves view Good Bad (m s)

-- What a client's call answers, and the view that it leaves.
abbrev pub Answers : {S U A : Type 0} → (S → U) → (A → U → Type 0) → U → (S → A × S) → Type 0
Answers {S} view Mid v q = (s : S) → view s ≡ v → Mid (q s).0 (view (q s).1)

abbrev pub IfOk : {U F A : Type 0} → (A → U → Type 0) → (U → Type 0) → Except F A → U → Type 0
IfOk Good Bad (ok a) v = Good a v
IfOk Good Bad (err e) v = Bad v

module _ {S U E C : Type 0} (view : S → U) (Bad : U → Type 0) where
  prefix-Leaves :
      {B : Type 0} (Good : B → U → Type 0) (l : List C) (rest : Except E B × S × List C)
      → Leaves view Good Bad rest
      → Leaves view Good Bad (rest.0, rest.1, l ++ rest.2)
  prefix-Leaves Good l (ok b, s, m) p = p
  prefix-Leaves Good l (err e, s, m) p = p

  resume-Leaves :
      {A B : Type 0} (Mid : A → U → Type 0) (Good : B → U → Type 0) (run : Except E A × S × List C)
      (f : A → Action S E C B)
      → Leaves view Mid Bad run
      → ((a : A) (w : U) → Mid a w → Takes view Good Bad w (f a))
      → Leaves view Good Bad (resume run f)
  resume-Leaves Mid Good (ok a, s, l) f h k =
      prefix-Leaves Good l (f a s) ((k a (view s) h).run s refl)
  resume-Leaves Mid Good (err e, s, l) f h k = h

  pub bind-Takes :
      {A B : Type 0} (Mid : A → U → Type 0) {Good : B → U → Type 0} {v : U} {m : Action S E C A}
      {f : A → Action S E C B}
      → Takes view Mid Bad v m
      → ((a : A) (w : U) → Mid a w → Takes view Good Bad w (f a))
      → Takes view Good Bad v (m >>= f)
  unfolding runs
  bind-Takes Mid {Good} {v} {m} {f} h k = record {
    run = λ s e. resume-Leaves Mid Good (m s) f (h.run s e) k;
  }

  pub pure-Takes :
      {A : Type 0} {Good : A → U → Type 0} {v : U} (a : A)
      → Good a v
      → Takes view Good Bad v (pure {S = S} {E = E} {C = C} a)
  unfolding runs
  pure-Takes {Good} a p = record { run = λ s e. rw e p }

  pub raise-Takes :
      {A : Type 0} {Good : A → U → Type 0} {v : U} (e : E)
      → Bad v
      → Takes view Good Bad v (raise {S = S} {C = C} e)
  unfolding runs
  raise-Takes e p = record { run = λ s q. rw q p }

  pub note-Takes :
      {Good : Unit {0} → U → Type 0} {v : U} (c : C)
      → Good tt v
      → Takes view Good Bad v (note {S = S} {E = E} c)
  unfolding runs
  note-Takes c p = record { run = λ s e. rw e p }

  pub query-bind-Takes :
      {A B : Type 0} (Mid : A → U → Type 0) {Good : B → U → Type 0} {v : U} (record_of : A → C)
      (q : S → A × S) (f : A → Action S E C B)
      → Answers view Mid v q
      → ((a : A) (w : U) → Mid a w → Takes view Good Bad w (f a))
      → Takes view Good Bad v (query record_of q >>= f)
  unfolding runs
  query-bind-Takes Mid {Good} record_of q f h k = record {
    run = λ s e.
        let (a, s') = q s in
        prefix-Leaves Good (record_of a ∷ []) (f a s') ((k a (view s') (h s e)).run s' refl);
  }

  pub wrap-Takes :
      {F A : Type 0} {Good : A → U → Type 0} {v : U} (w : F → E) (r : Except F A)
      → IfOk Good Bad r v
      → Takes view Good Bad v (wrap {S = S} {C = C} w r)
  unfolding runs
  wrap-Takes w (ok a) p = record { run = λ s e. rw e p }
  wrap-Takes w (err x) p = record { run = λ s e. rw e p }

  pub request-Takes :
      {F A : Type 0} {Good : A → U → Type 0} {v : U} (record_of : Except F A → C) (w : F → E)
      (q : S → Except F A × S)
      → Answers view (IfOk Good Bad) v q
      → Takes view Good Bad v (query record_of q >>= wrap w)
  request-Takes {Good} record_of w q h =
      query-bind-Takes (IfOk Good Bad) record_of q _ h λ r u p. wrap-Takes w r p

  pub if-Takes :
      {A : Type 0} {Good : A → U → Type 0} {v : U} (b : Bool) (m n : Action S E C A)
      → (b ≡ true → Takes view Good Bad v m)
      → (b ≡ false → Takes view Good Bad v n)
      → Takes view Good Bad v (if b then m else n)
  if-Takes true m n h k = h refl
  if-Takes false m n h k = k refl

  handled :
      {A : Type 0} (Good : A → U → Type 0) (Worse : U → Type 0) (run : Except E A × S × List C)
      → Leaves view Good Worse run
      → Leaves {E = E} view (IfOk {F = E} Good Worse) Bad (ok run.0, run.1, run.2)
  handled Good Worse (ok a, s, l) h = h
  handled Good Worse (err e, s, l) h = h

  pub attempt-Takes :
      {A : Type 0} {Good : A → U → Type 0} (Worse : U → Type 0) {v : U} {m : Action S E C A}
      → Takes view Good Worse v m
      → Takes view (IfOk {F = E} Good Worse) Bad v (attempt m)
  unfolding runs
  attempt-Takes {Good} Worse {v} {m} h = record {
    run = λ s e. handled Good Worse (m s) (h.run s e);
  }

  -- A query that leaves the view as it is.
  pub read-bind-Takes :
      {A B : Type 0} (P : A → Type 0) {Good : B → U → Type 0} {v : U} (record_of : A → C)
      (q : S → A × S) (f : A → Action S E C B)
      → Answers view (λ a w. (w ≡ v) × P a) v q
      → ((a : A) → P a → Takes view Good Bad v (f a))
      → Takes view Good Bad v (query record_of q >>= f)
  read-bind-Takes P {Good} {v} record_of q f h k =
      query-bind-Takes (λ a w. (w ≡ v) × P a) record_of q f h λ a w known. rw known.0 (k a known.1)

  -- An action that leaves the view as it is, whatever it answers.
  pub still-bind-Takes :
      {A B : Type 0} (P : A → Type 0) {Good : B → U → Type 0} {v : U} {m : Action S E C A}
      {f : A → Action S E C B}
      → Takes view (λ a w. (w ≡ v) × P a) Bad v m
      → ((a : A) → P a → Takes view Good Bad v (f a))
      → Takes view Good Bad v (m >>= f)
  still-bind-Takes P {Good} {v} h k =
      bind-Takes (λ a w. (w ≡ v) × P a) h λ a w known. rw known.0 (k a known.1)

  -- A call that is known to succeed.
  pub done-Takes :
      {F A : Type 0} {Good : A → U → Type 0} {v : U} (v' : U) (a : A) (record_of : Except F A → C)
      (w : F → E) (q : S → Except F A × S)
      → Answers view (λ r u. (u ≡ v') × (r ≡ ok a)) v q
      → Good a v'
      → Takes view Good Bad v (query record_of q >>= wrap w)
  done-Takes {Good} v' a record_of w q h p =
      request-Takes record_of w q λ s e. let known = h s e in rw (known.0, known.1) p

  weaken-Leaves :
      {A : Type 0} {Mid Good : A → U → Type 0} (run : Except E A × S × List C)
      → ((a : A) (w : U) → Mid a w → Good a w)
      → Leaves view Mid Bad run
      → Leaves view Good Bad run
  weaken-Leaves (ok a, s, l) k h = k a (view s) h
  weaken-Leaves (err e, s, l) k h = h

  pub weaken-Takes :
      {A : Type 0} {Mid Good : A → U → Type 0} {v : U} {m : Action S E C A}
      → ((a : A) (w : U) → Mid a w → Good a w)
      → Takes view Mid Bad v m
      → Takes view Good Bad v m
  weaken-Takes {m} k h = record { run = λ s e. weaken-Leaves (m s) k (h.run s e) }
