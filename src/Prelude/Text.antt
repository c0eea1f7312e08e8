-- ===== src/Prelude/Text.antt =====
-- Go's `strings`, `sort.Strings`, `%d` and `%q` as far as the program uses them. A text is the list
-- of its code points: a string of the Kubernetes API is valid UTF-8.
pub mod Trim
pub mod Sort
pub mod Prefix
use Prim.Native.Nat.{ℕ, zero, suc, ◌/◌, ◌%◌}
use Prim.Native.Char.{Char, code}
use Prim.Native.String.{String, ◌++◌ as ◌<>◌}
use mathlib.Core.Bool.{Bool, true, false, ◌&&◌, ◌||◌}
use mathlib.Core.List.{List, [], ◌∷◌}
use locations.Prelude.Tests.{leb, ltb, eqb, if◌then◌else◌}

-- `strings.Join(parts, sep)`
abbrev pub join : List String → String → String
join [] sep = ""
join (s ∷ []) sep = s
join (s ∷ t ∷ r) sep = s <> sep <> join (t ∷ r) sep

abbrev hex_digit : ℕ → String
hex_digit d =
    if eqb d 0
    then "0"
    else if eqb d 1
    then "1"
    else if eqb d 2
    then "2"
    else if eqb d 3
    then "3"
    else if eqb d 4
    then "4"
    else if eqb d 5
    then "5"
    else if eqb d 6
    then "6"
    else if eqb d 7
    then "7"
    else if eqb d 8
    then "8"
    else if eqb d 9
    then "9"
    else if eqb d 10
    then "a"
    else if eqb d 11
    then "b"
    else if eqb d 12
    then "c"
    else if eqb d 13
    then "d"
    else if eqb d 14
    then "e"
    else "f"

-- The digits of `n` in a base, in front of `rest`; each round of fuel writes one digit.
digits_onto : ℕ → ℕ → ℕ → String → String
digits_onto base zero n rest = rest
digits_onto base (suc fuel) n rest =
    let longer = digits_onto base fuel (n / base) (hex_digit (n % base) <> rest) in
    if ltb n base then hex_digit n <> rest else longer

-- `%d`. A number has fewer decimal digits than its value plus one.
unfoldable pub decimal : ℕ → String
unfolding digits_onto
decimal n = digits_onto 10 (suc n) n ""

-- `%0*x` in a fixed number of hexadecimal digits
hex_onto : ℕ → ℕ → String → String
hex_onto zero n rest = rest
hex_onto (suc width) n rest = hex_onto width (n / 16) (hex_digit (n % 16) <> rest)

-- `strconv.IsPrint` below U+0100, and the tables of the Go distribution above
abbrev is_print_rune : (ℕ → Bool) → ℕ → Bool
is_print_rune is_print r =
    if leb r 0xff
    then (leb 0x20 r && ltb r 0x7f) || (leb 0xa1 r && (if eqb r 0xad then false else true))
    else is_print r

-- one rune of `strconv.Quote`
quote_rune : (ℕ → Bool) → Char → String
quote_rune is_print c =
    let r = code c in
    if eqb r 0x22
    then "\\\""
    else if eqb r 0x5c
    then "\\\\"
    else if is_print_rune is_print r
    then String.◌∷◌ c String.[]
    else if eqb r 7
    then "\\a"
    else if eqb r 8
    then "\\b"
    else if eqb r 12
    then "\\f"
    else if eqb r 10
    then "\\n"
    else if eqb r 13
    then "\\r"
    else if eqb r 9
    then "\\t"
    else if eqb r 11
    then "\\v"
    else if ltb r 0x20 || eqb r 0x7f
    then "\\x" <> hex_onto 2 r ""
    else if ltb r 0x10000
    then "\\u" <> hex_onto 4 r ""
    else "\\U" <> hex_onto 8 r ""

quote_runes : (ℕ → Bool) → String → String
quote_runes is_print String.[] = ""
quote_runes is_print (String.◌∷◌ c s) = quote_rune is_print c <> quote_runes is_print s

-- `%q`
unfoldable pub quote : (ℕ → Bool) → String → String
unfolding quote_runes quote_rune hex_onto
quote is_print s = "\"" <> quote_runes is_print s <> "\""
