-- ===== src/Prelude/Text/Trim.antt =====
-- `strings.TrimSpace`

use Prim.Native.Char.{Char, code}
use Prim.Native.String.{String, [], ◌∷◌}
use mathlib.Core.Path.{◌≡◌, refl}
use mathlib.Core.Bool.{Bool, true, false, ◌&&◌, ◌||◌}
use native.Mathlib.Omega.{arith}
use locations.Prelude.Tests.{leb, eqb, if◌then◌else◌}

-- `unicode.IsSpace`
pub is_space : Char → Bool
is_space c =
    let r = code c in
    (leb 9 r && leb r 13)
    || eqb r 0x20
    || eqb r 0x85
    || eqb r 0xa0
    || eqb r 0x1680
    || (leb 0x2000 r && leb r 0x200a)
    || eqb r 0x2028
    || eqb r 0x2029
    || eqb r 0x202f
    || eqb r 0x205f
    || eqb r 0x3000

abbrev is_nil : String → Bool
is_nil [] = true
is_nil (c ∷ s) = false

pub trim_left : String → String
trim_left [] = []
trim_left (c ∷ s) = if is_space c then trim_left s else c ∷ s

pub trim_right : String → String
trim_right [] = []
trim_right (c ∷ s) = let rest = trim_right s in if is_nil rest && is_space c then [] else c ∷ rest

unfoldable pub trim_space : String → String
unfolding trim_left trim_right is_space
trim_space s = trim_right (trim_left s)

trim_right_idem : (s : String) → trim_right (trim_right s) ≡ trim_right s
unfolding trim_right
trim_right_idem [] = refl
trim_right_idem (c ∷ s) = ground (arith, trim_right_idem s)

blank_head : String → Bool
blank_head [] = false
blank_head (c ∷ s) = is_space c

blank_head-trim_left : (s : String) → blank_head (trim_left s) ≡ false
unfolding trim_left blank_head
blank_head-trim_left [] = refl
blank_head-trim_left (c ∷ s) = ground (arith, blank_head-trim_left s)

blank_head-trim_right : (s : String) → blank_head s ≡ false → blank_head (trim_right s) ≡ false
unfolding trim_right blank_head
blank_head-trim_right [] h = refl
blank_head-trim_right (c ∷ s) h = ground arith

trim_left_of_head : (s : String) → blank_head s ≡ false → trim_left s ≡ s
unfolding trim_left blank_head
trim_left_of_head [] h = refl
trim_left_of_head (c ∷ s) h = ground arith

-- Trimming is idempotent.
pub trim_space_idem : (s : String) → trim_space (trim_space s) ≡ trim_space s
unfolding trim_space
trim_space_idem s =
    rw (trim_left_of_head _ (blank_head-trim_right _ (blank_head-trim_left s)))
      (trim_right_idem (trim_left s))
