-- ===== src/Shared/Utilities.antt =====
-- shared/utilities.c: numbers from strings, with C's `strtoul` and `strtol` at base 10 on 64-bit
-- longs. A string is the list of its bytes.
pub mod ReadBack
use home_banking_system.Base.{
  ℕ, ◌+◌, ◌-◌, ◌*◌, ◌%◌, ◌^◌, Bool, true, false, ◌||◌, ◌&&◌, List, [], ◌∷◌, leb, ◌==◌,
  if◌then◌else◌,
}
use home_banking_system.Base.Int.{ℤ, negsuc, to_int}
use home_banking_system.Types.{invalid_balance}

unfoldable pub is_space : ℕ → Bool
is_space c = (c == 32) || (leb 9 c && leb c 13)

unfoldable pub is_digit : ℕ → Bool
is_digit c = leb b'0' c && leb c b'9'

unfoldable pub skip_space : List ℕ → List ℕ
unfolding is_space
skip_space [] = []
skip_space (c ∷ cs) = if is_space c then skip_space cs else c ∷ cs

-- The value of the digits at the front, behind those that gave `acc`, and what follows them.
unfoldable pub digits : ℕ → List ℕ → ℕ × List ℕ
unfolding is_digit
digits acc [] = (acc, [])
digits acc (c ∷ cs) = if is_digit c then digits (acc * 10 + (c - b'0')) cs else (acc, c ∷ cs)

-- A sign, the value, and the rest; without a digit, the value is 0 and the rest is all.
unfoldable pub magnitude : List ℕ → Bool → List ℕ → Bool × ℕ × List ℕ
unfolding is_digit digits
magnitude all negative [] = (false, 0, all)
magnitude all negative (c ∷ cs) =
    if is_digit c
    then (let (n, rest) = digits 0 (c ∷ cs) in (negative, n, rest))
    else (false, 0, all)

unfoldable pub signed : List ℕ → List ℕ → Bool × ℕ × List ℕ
unfolding magnitude
signed all [] = (false, 0, all)
signed all (c ∷ cs) =
    if c == b'-'
    then magnitude all true cs
    else if c == b'+'
    then magnitude all false cs
    else magnitude all false (c ∷ cs)

-- Too large a value gives the largest; a negative one is taken modulo 2 ^ 64.
unfoldable pub strtoul : List ℕ → ℕ × List ℕ
unfolding signed skip_space
strtoul s =
    let (negative, n, rest) = signed s (skip_space s) in
    (if leb (2 ^ 64) n then 2 ^ 64 - 1 else if negative then (2 ^ 64 - n) % 2 ^ 64 else n, rest)

-- The value as 64 bits: the nearest `long`.
unfoldable pub strtol : List ℕ → ℕ × List ℕ
unfolding signed skip_space
strtol s =
    let (negative, n, rest) = signed s (skip_space s) in
    (
      if negative
          then (if leb (2 ^ 63) n then 2 ^ 63 else (2 ^ 64 - n) % 2 ^ 64)
          else if leb (2 ^ 63) n
          then 2 ^ 63 - 1
          else n,
      rest,
    )

unfoldable pub str_to_lu : List ℕ → ℕ
unfolding strtoul
str_to_lu s =
    let (balance, rest) = strtoul s in elim rest [ [] ↦ balance | c ∷ cs ↦ invalid_balance ]

-- The conversion to `int` keeps the low 32 bits.
unfoldable pub str_to_int : List ℕ → ℤ
unfolding strtol
str_to_int s =
    let (balance, rest) = strtol s in
    elim rest [ [] ↦ to_int (balance % 2 ^ 32) | c ∷ cs ↦ negsuc 0 ]
