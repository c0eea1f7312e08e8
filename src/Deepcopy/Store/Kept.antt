-- ===== src/Deepcopy/Store/Kept.antt =====
-- A copy and its original once the store goes on changing.
use locations.Prelude.{Option, none, some, arith, ◌≡◌, refl, ◌∙◌}
use locations.Deepcopy.Store.{Address, Store, copy_pointer, deep_copy, returned}
use locations.Deepcopy.Store.Agree.{
  Agrees, PointsTo, Standing, IsCopier, PointsTo-IsCopier, Both, in_turn, in_turn-Copied,
}

-- A pointer to a struct, or nil.
abbrev pub OptionAt : {A B C : Type 0} → Standing C A B → Standing C (Option A) (Option B)
OptionAt R lo hi h none none = Unit {0}
OptionAt R lo hi h (some x) (some v) = R lo hi h x v
OptionAt R lo hi h _ _ = ⊥

-- A pointer to a cell that shows a value; nil may show one too.
abbrev pub Shown : {B C : Type 0} → (Option C → B → Type 0) → Standing C (Option Address) B
Shown {C} Is lo hi h p v = (c : Option C) × PointsTo lo hi h p c × Is c v

pub Shown-IsCopier : {B C : Type 0} (Is : Option C → B → Type 0) → IsCopier (Shown Is) copy_pointer
Shown-IsCopier Is = record {
  moves = λ lo hi lo' hi' g h x v k l same (c, p, is).
      (c, PointsTo-IsCopier.moves lo hi lo' hi' g h x c k l same p, is);
  copies = λ lo hi h x v k (c, p, is).
      let (n, same, q) = PointsTo-IsCopier.copies lo hi h x c k p in (n, same, (c, q, is));
}

abbrev pub paired :
    {A B C : Type 0}
    → (A → Store C → A × Store C)
    → (B → Store C → B × Store C)
    → A × B
    → Store C
    → (A × B) × Store C
paired f g (x, y) h = in_turn f g x y h

pub paired-IsCopier :
    {A B C D K : Type 0} {R : Standing C A B} {S : Standing C K D} {f : A → Store C → A × Store C}
    {g : K → Store C → K × Store C}
    → IsCopier R f
    → IsCopier S g
    → IsCopier (Both R S) (paired f g)
paired-IsCopier F G = record {
  moves = λ lo hi lo' hi' g h (x, y) (v, w) k l same (p, q).
      (F.moves lo hi lo' hi' g h x v k l same p, G.moves lo hi lo' hi' g h y w k l same q);
  copies = λ lo hi h (x, y) (v, w) k (p, q). in_turn-Copied F G lo hi h x v y w k p q;
}

-- A part that has no pointers and is copied as it is.
abbrev pub Plain : {A C : Type 0} → Standing C A A
Plain lo hi h x v = x ≡ v

pub returned_same : {A : Type 0} (o : Option A) → returned o ≡ o
returned_same none = refl
returned_same (some a) = refl

pub separates :
    {A B C : Type 0} {At : Standing C A B} {into : A → Store C → A × Store C}
    → IsCopier At into
    → (h g g' : Store C) (x : Option A) (v : Option B) → OptionAt At 0 h.next h x v
    → Agrees h.next (deep_copy into x h).1.next g (deep_copy into x h).1
    → Agrees 0 h.next g' (deep_copy into x h).1
    → OptionAt At h.next (deep_copy into x h).1.next g (returned (deep_copy into x h).0) v
      × OptionAt At 0 h.next g' x v
separates F h g g' none none q new old = (tt, tt)
separates {into} F h g g' (some x) (some v) q new old =
    let (y, h') = into x h in
    let (n, same, q') = F.copies 0 h.next h x v (omega arith) q in
    (
      F.moves h.next h'.next h.next h'.next g h' y v (omega arith) (omega arith) new q',
      F.moves 0 h.next 0 h.next g' h x v (omega arith) (omega arith)
          (λ a i j. old a i j ∙ same a i j) q,
    )
separates F h g g' none (some v) q new old = absurd q
separates F h g g' (some x) none q new old = absurd q
