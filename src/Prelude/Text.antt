-- ===== src/Prelude/Text.antt =====
-- What the code uses of Rust's `str`: `trim`, `split_once('.')`, and `from_str` of the unsigned integers
-- and of `bool`; with `{}` of an unsigned integer.
use Prim.Native.String
use Prim.Native.Nat.{ℕ, zero, suc, ◌/◌, ◌%◌, ◌+◌, ◌-◌, ◌*◌, ◌≤◌}
use mathlib.Core.Path.{◌≡◌}
use native.Mathlib.Omega.{arith}
use Prim.Native.Char.{Char, code}
use Prim.Native.String.{String, [], ◌∷◌}
use mathlib.Core.Bool.{Bool, true, false, ◌&&◌, ◌||◌}
use mathlib.Core.Option.{Option, none, some}
use text.Mathlib.Text.{◌==◌ as str_eq}
use integration_home_assista.Prelude.Tests.{◌==◌, leb, if◌then◌else◌}

-- `s.is_empty()`
abbrev pub is_empty : String → Bool
is_empty [] = true
is_empty (c ∷ s) = false

-- The code points with the Unicode property White_Space.
unfoldable pub is_white : ℕ → Bool
is_white c =
    (leb 9 c && leb c 13)
    || c == 32
    || c == 133
    || c == 160
    || c == 5760
    || (leb 8192 c && leb c 8202)
    || c == 8232
    || c == 8233
    || c == 8239
    || c == 8287
    || c == 12288

unfoldable pub trim_start : String → String
unfolding is_white
trim_start [] = []
trim_start (c ∷ s) = let rest = trim_start s in if is_white (code c) then rest else c ∷ s

abbrev cons_unless_blank : Char → String → String
cons_unless_blank c [] = if is_white (code c) then [] else c ∷ []
cons_unless_blank c (d ∷ s) = c ∷ d ∷ s

unfoldable pub trim_end : String → String
unfolding is_white
trim_end [] = []
trim_end (c ∷ s) = cons_unless_blank c (trim_end s)

-- `str::trim`
unfoldable pub trim : String → String
unfolding trim_start trim_end
trim s = trim_end (trim_start s)

-- The digits of a `from_str`, with the value read so far; a value above `most` overflows.
unfoldable pub digits_from : ℕ → ℕ → String → Option ℕ
digits_from most n [] = some n
digits_from most n (c ∷ s) =
    let d = code c in
    let n' = 10 * n + (d - 48) in
    let rest = digits_from most n' s in if leb 48 d && leb d 57 && leb n' most then rest else none

abbrev digits_of : ℕ → String → Option ℕ
digits_of most [] = none
digits_of most (c ∷ s) = digits_from most 0 (c ∷ s)

-- `from_str` of an unsigned integer up to `most`: an optional plus sign, then at least one digit.
unfoldable pub parse_uint : ℕ → String → Option ℕ
unfolding digits_from
parse_uint most [] = none
parse_uint most (c ∷ s) = if code c == b'+' then digits_of most s else digits_of most (c ∷ s)

abbrev digit : ℕ → String
digit n =
    if n == 0
    then "0"
    else if n == 1
    then "1"
    else if n == 2
    then "2"
    else if n == 3
    then "3"
    else if n == 4
    then "4"
    else if n == 5
    then "5"
    else if n == 6
    then "6"
    else if n == 7
    then "7"
    else if n == 8
    then "8"
    else "9"

-- `{}` of an unsigned integer, with as many digits as given at most.
unfoldable pub decimal : ℕ → ℕ → String
decimal zero n = ""
decimal (suc digits) n =
    let front = decimal digits (n / 10) in
    if leb n 9 then digit n else String.◌++◌ front (digit (n % 10))

-- `bool::from_str`
unfoldable pub parse_bool : String → Option Bool
parse_bool s = if str_eq s "true" then some true else if str_eq s "false" then some false else none

-- `s.split_once('.')`
unfoldable pub split_once_dot : String → Option (String × String)
split_once_dot [] = none
split_once_dot (c ∷ s) =
    let rest = split_once_dot s in
    if code c == b'.'
    then some ([], s)
    else elim rest [ none ↦ none | some (l, r) ↦ some (c ∷ l, r) ]

digits_from_bound :
    (most n : ℕ) (s : String) (v : ℕ) → n ≤ most → digits_from most n s ≡ some v → v ≤ most
unfolding digits_from
digits_from_bound most n [] v h e = ground arith
digits_from_bound most n (c ∷ s) v h e =
    ground (arith, digits_from_bound most (10 * n + (code c - 48)) s v)

digits_of_bound : (most : ℕ) (s : String) (v : ℕ) → digits_of most s ≡ some v → v ≤ most
digits_of_bound most [] v e = cc
digits_of_bound most (c ∷ s) v e = digits_from_bound most 0 (c ∷ s) v (omega arith) e

-- What is parsed is at most the maximum of the type.
pub parse_uint_bound : (most : ℕ) (s : String) (v : ℕ) → parse_uint most s ≡ some v → v ≤ most
unfolding parse_uint
parse_uint_bound most [] v e = cc
parse_uint_bound most (c ∷ s) v e =
    ground (arith, digits_of_bound most s v, digits_of_bound most (c ∷ s) v)
