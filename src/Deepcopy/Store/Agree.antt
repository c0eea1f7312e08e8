-- ===== src/Deepcopy/Store/Agree.antt =====
-- Parts of a store, and what a copied pointer points to.
use locations.Prelude.{Option, none, some, ◌≤◌, ◌<◌, arith, ◌≡◌, refl, ◌∙◌}
use locations.Deepcopy.Store.{Address, Store, copy_pointer}

-- A value with its pointers stands for a value without them, in these cells of a store.
abbrev pub Standing : Type 0 → Type 0 → Type 0 → Type 1
Standing C A B = Address → Address → Store C → A → B → Type 0

module _ {C : Type 0} where
  -- The two stores have the same cells between the addresses.
  abbrev pub Agrees : Address → Address → Store C → Store C → Type 0
  Agrees lo hi g h = (a : Address) → lo ≤ a → a < hi → g.cells a ≡ h.cells a

  -- The pointer is nil or points between the addresses, to this content.
  abbrev pub PointsTo : Address → Address → Store C → Option Address → Option C → Type 0
  PointsTo lo hi h none none = Unit {0}
  PointsTo lo hi h (some a) (some c) = (lo ≤ a) × (a < hi) × (h.cells a ≡ some c)
  PointsTo lo hi h _ _ = ⊥

  pub PointsTo-Agrees :
      (lo hi lo' hi' : Address) (g h : Store C) (p : Option Address) (v : Option C)
      → lo' ≤ lo
      → hi ≤ hi'
      → Agrees lo hi g h
      → PointsTo lo hi h p v
      → PointsTo lo' hi' g p v
  PointsTo-Agrees lo hi lo' hi' g h none none k l same q = q
  PointsTo-Agrees lo hi lo' hi' g h (some a) (some c) k l same (m, n, e) =
      (omega arith, omega arith, same a m n ∙ e)
  PointsTo-Agrees lo hi lo' hi' g h none (some c) k l same q = absurd q
  PointsTo-Agrees lo hi lo' hi' g h (some a) none k l same q = absurd q

  -- What a copy leaves: nothing below the first free address of the old store has changed, and the
  -- copied value stands in the cells from there on.
  abbrev pub Copied : {A B : Type 0} → Standing C A B → B → Store C → A × Store C → Type 0
  Copied At v h (x, h') = (h.next ≤ h'.next) × Agrees 0 h.next h' h × At h.next h'.next h' x v

  pub copy_pointer-Copied :
      (lo hi : Address) (h : Store C) (p : Option Address) (v : Option C)
      → hi ≤ h.next
      → PointsTo lo hi h p v
      → Copied PointsTo v h (copy_pointer p h)
  copy_pointer-Copied lo hi h none none k q = (omega arith, λ a m n. refl, tt)
  copy_pointer-Copied lo hi h (some a) (some c) k (m, n, e) =
      rw e (omega arith, λ b i j. ground (arith, j), (omega arith, omega arith, ground arith))
  copy_pointer-Copied lo hi h none (some c) k q = absurd q
  copy_pointer-Copied lo hi h (some a) none k q = absurd q

  -- What a function that copies promises.
  pub record IsCopier {A B : Type 0} (At : Standing C A B) (into : A → Store C → A × Store C)
      : Type 0 where
    -- it stands on its own cells alone
    pub moves :
        (lo hi lo' hi' : Address) (g h : Store C) (x : A) (v : B)
        → lo' ≤ lo
        → hi ≤ hi'
        → Agrees lo hi g h
        → At lo hi h x v
        → At lo' hi' g x v
    pub copies :
        (lo hi : Address) (h : Store C) (x : A) (v : B)
        → hi ≤ h.next
        → At lo hi h x v
        → Copied At v h (into x h)

  pub PointsTo-IsCopier : IsCopier PointsTo copy_pointer
  PointsTo-IsCopier = record { moves = PointsTo-Agrees; copies = copy_pointer-Copied }

  -- Two copies, one after the other.
  abbrev pub in_turn :
      {A B : Type 0}
      → (A → Store C → A × Store C)
      → (B → Store C → B × Store C)
      → A
      → B
      → Store C
      → (A × B) × Store C
  in_turn f g x y h = let (x', h') = f x h in let (y', h'') = g y h' in ((x', y'), h'')

  abbrev pub Both :
      {A B K D : Type 0} → Standing C A B → Standing C K D → Standing C (A × K) (B × D)
  Both R S lo hi h (x, y) (v, w) = R lo hi h x v × S lo hi h y w

  pub in_turn-Copied :
      {A B K D : Type 0} {R : Standing C A B} {S : Standing C K D} {f : A → Store C → A × Store C}
      {g : K → Store C → K × Store C}
      → IsCopier R f
      → IsCopier S g
      → (lo hi : Address) (h : Store C) (x : A) (v : B) (y : K) (w : D) → hi ≤ h.next
      → R lo hi h x v
      → S lo hi h y w
      → Copied (Both R S) (v, w) h (in_turn f g x y h)
  in_turn-Copied {f} {g} F G lo hi h x v y w k p q =
      let (x', h') = f x h in
      let (n, same, p') = F.copies lo hi h x v k p in
      let q' =
        G.moves lo hi lo hi h' h y w (omega arith) (omega arith)
          (λ a i j. same a (omega arith) (omega arith)) q in
      let (n', same', q'') = G.copies lo hi h' y w (omega arith) q' in
      (
        omega arith,
        λ a i j. same' a i (omega arith) ∙ same a i j,
        (
          F.moves h.next h'.next h.next (g y h').1.next (g y h').1 h' x' v (omega arith)
              (omega arith) (λ a i j. same' a (omega arith) j) p',
          G.moves h'.next (g y h').1.next h.next (g y h').1.next (g y h').1 (g y h').1 (g y h').0 w
              (omega arith) (omega arith) (λ a i j. refl) q'',
        ),
      )
