-- ===== src/Deepcopy/Store.antt =====
-- A store of what pointers, maps and slices point to.
pub mod Agree
pub mod Kept
use locations.Prelude.{ℕ, suc, Option, none, some, if◌then◌else◌, eqb}

abbrev pub Address : Type 0
Address = ℕ

-- Cells of some kind. Addresses from `next` on are free. A slice points to its whole array.
pub record Store (C : Type 0) : Type 0 where
  pub next : Address
  pub cells : Address → Option C

module _ {C : Type 0} where
  abbrev pub allocate : C → Store C → Address × Store C
  allocate c h = (
    h.next,
    record { next = suc h.next; cells = λ a. if eqb a h.next then some c else h.cells a },
  )

  -- a fresh cell of the same content; a pointer to nothing cannot be
  abbrev pub copy_cell : Address → Option C → Store C → Option Address × Store C
  copy_cell a none h = (some a, h)
  copy_cell a (some c) h = let (b, h') = allocate c h in (some b, h')

  -- `if in.X != nil`, `new` or `make`, and the copy of the content. The pointer is what `*out = *in`
  -- has put there.
  abbrev pub copy_pointer : Option Address → Store C → Option Address × Store C
  copy_pointer none h = (none, h)
  copy_pointer (some a) h = copy_cell a (h.cells a) h

-- structs without pointers: `*out = *in`
abbrev pub plain_deep_copy_into : {A C : Type 0} → A → Store C → A × Store C
plain_deep_copy_into x h = (x, h)

-- `DeepCopy`: of nil, or of a pointer to a struct, which is a struct of its own
abbrev pub deep_copy :
    {A C : Type 0} → (A → Store C → A × Store C) → Option A → Store C → Option A × Store C
deep_copy into none h = (none, h)
deep_copy into (some x) h = let (y, h') = into x h in (some y, h')

abbrev pub returned : {A : Type 0} → Option A → Option A
returned none = none
returned (some c) = some c
