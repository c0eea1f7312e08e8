-- ===== src/Prelude/Effect.antt =====
-- Code that calls clients which can fail, as Go writes it with `if err != nil { return err }`.
-- An action takes the state of the outside world to an answer, the next state and the calls that
-- were made, in order. The calls are what the theorems on traces speak of.

use mathlib.Core.List.{List, [], ◌∷◌, ◌++◌}

pub data Except (E A : Type 0) : Type 0 where
  ok : A → Except E A
  err : E → Except E A

abbrev pub Action : Type 0 → Type 0 → Type 0 → Type 0 → Type 0
Action S E C A = S → Except E A × S × List C

unfoldable pub pure : {S E C A : Type 0} → A → Action S E C A
pure a s = (ok a, s, [])

unfoldable pub raise : {S E C A : Type 0} → E → Action S E C A
raise e s = (err e, s, [])

-- The rest of a run, after its first part.
abbrev pub resume :
    {S E C A B : Type 0} → Except E A × S × List C → (A → Action S E C B) → Except E B × S × List C
resume (ok a, s, l) f = let (r, s', l') = f a s in (r, s', l ++ l')
resume (err e, s, l) f = (err e, s, l)

infixl 5 ◌>>=◌ ◌>>◌
unfoldable pub ◌>>=◌ : {S E C A B : Type 0} → Action S E C A → (A → Action S E C B) → Action S E C B
◌>>=◌ m f s = resume (m s) f

abbrev pub ◌>>◌ : {S E C B : Type 0} → Action S E C (Unit {0}) → Action S E C B → Action S E C B
m >> k = m >>= λ _. k

-- A call with no answer: a metric or an event.
unfoldable pub note : {S E C : Type 0} → C → Action S E C (Unit {0})
note c s = (ok tt, s, c ∷ [])

-- A query of a client. The record of the call holds its answer.
unfoldable pub query : {S E C A : Type 0} → (A → C) → (S → A × S) → Action S E C A
query record_of q s = let (a, s') = q s in (ok a, s', record_of a ∷ [])

-- `if err := …; err != nil { return fmt.Errorf("…: %w", err) }`
unfoldable pub wrap : {S E C F A : Type 0} → (F → E) → Except F A → Action S E C A
wrap w (ok a) s = (ok a, s, [])
wrap w (err e) s = (err (w e), s, [])

-- Handling an error as a value.
unfoldable pub attempt : {S E C A : Type 0} → Action S E C A → Action S E C (Except E A)
attempt m s = let (r, s', l) = m s in (ok r, s', l)

-- To compute a run: a proof that unfolds this sees through the operations above.
unfoldable pub runs : Unit {0}
unfolding pure raise ◌>>=◌ note query wrap attempt
runs = tt
