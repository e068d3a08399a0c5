-- ===== src/Shared/Log/Fields.antt =====
-- What `printf` makes of a value, for the conversions that shared/log.c uses, and how long it is.
use home_banking_system.Base.{
  ℕ, zero, suc, ◌+◌, ◌-◌, ◌/◌, ◌%◌, ◌^◌, ◌≤◌, ◌<◌, ◌≡◌, Bool-cases, Option-cases, inl, inr, List,
  [], ◌∷◌, ◌++◌, length, Option, none, some, if◌then◌else◌, ◌==◌, arith, length-append,
}
use home_banking_system.Base.Int.{ℤ, pos, negsuc}
use home_banking_system.Shared.Protocol.FifoName.{decimal, sprintf_d, length-decimal_le}

abbrev pub copies : ℕ → ℕ → List ℕ
copies zero c = []
copies (suc n) c = c ∷ copies n c

-- `%0*d`: zeros stand behind a sign.
unfoldable pub zero_padded : ℕ → ℤ → List ℕ
zero_padded w (pos n) = copies (w - length (decimal 10 n)) b'0' ++ decimal 10 n
zero_padded w (negsuc n) =
    b'-' ∷ copies (w - 1 - length (decimal 10 (suc n))) b'0' ++ decimal 10 (suc n)

-- `%*d`, `%*u` and `%*s` of what they show.
unfoldable pub right : ℕ → List ℕ → List ℕ
right w bs = copies (w - length bs) 32 ++ bs

-- `%-*s`
unfoldable pub left : ℕ → List ℕ → List ℕ
left w bs = bs ++ copies (w - length bs) 32

-- `%u`
unfoldable pub unsigned : ℕ → List ℕ
unsigned n = decimal 10 n

-- `%lu` of a thread.
unfoldable pub unsigned_long : ℤ → List ℕ
unsigned_long (pos n) = decimal 20 (n % 2 ^ 64)
unsigned_long (negsuc n) = decimal 20 (2 ^ 64 - 1 - n % 2 ^ 64)

-- A C string that must end within its memory.
unfoldable pub string_in : List ℕ → Option (List ℕ)
string_in [] = none
string_in (b ∷ bs) =
    if b == 0 then some [] else elim (string_in bs) [ none ↦ none | some s ↦ some (b ∷ s) ]

-- The parts of a format one behind the other.
abbrev pub joined : List (List ℕ) → List ℕ
joined [] = []
joined (p ∷ ps) = p ++ joined ps

abbrev pub total : List (List ℕ) → ℕ
total [] = 0
total (p ∷ ps) = length p + total ps

pub length-joined : (ps : List (List ℕ)) → length (joined ps) ≡ total ps
length-joined [] = omega arith
length-joined (p ∷ ps) = omega (arith, length-append p (joined ps), length-joined ps)

pub length-copies : (n c : ℕ) → length (copies n c) ≡ n
length-copies zero c = omega arith
length-copies (suc n) c = omega (arith, length-copies n c)

-- No more digits than rounds.
pub length-decimal_rounds : (k n : ℕ) → length (decimal k n) ≤ k
unfolding decimal
length-decimal_rounds zero n = omega arith
length-decimal_rounds (suc k) n = ground (
  arith,
  length-append (decimal k (n / 10)) ((b'0' + n % 10) ∷ []),
  length-decimal_rounds k (n / 10),
)

pub length-right : (w : ℕ) (bs : List ℕ) → length (right w bs) ≡ (w - length bs) + length bs
unfolding right
length-right w bs =
    omega (arith, length-append (copies (w - length bs) 32) bs, length-copies (w - length bs) 32)

pub length-left : (w : ℕ) (bs : List ℕ) → length (left w bs) ≡ (w - length bs) + length bs
unfolding left
length-left w bs =
    omega (arith, length-append bs (copies (w - length bs) 32), length-copies (w - length bs) 32)

pub length-zero_padded_le : (w : ℕ) (v : ℤ) → length (zero_padded w v) ≤ w + 11
unfolding zero_padded
length-zero_padded_le w (pos n) = omega (
  arith,
  length-append (copies (w - length (decimal 10 n)) b'0') (decimal 10 n),
  length-copies (w - length (decimal 10 n)) b'0',
  length-decimal_rounds 10 n,
)
length-zero_padded_le w (negsuc n) = omega (
  arith,
  length-append (copies (w - 1 - length (decimal 10 (suc n))) b'0') (decimal 10 (suc n)),
  length-copies (w - 1 - length (decimal 10 (suc n))) b'0',
  length-decimal_rounds 10 (suc n),
)

pub length-sprintf_d : (v : ℤ) → length (sprintf_d v) ≤ 11
unfolding sprintf_d
length-sprintf_d (pos n) = omega (arith, length-decimal_rounds 10 n)
length-sprintf_d (negsuc n) = omega (arith, length-decimal_rounds 10 (suc n))

pub length-unsigned : (n : ℕ) → length (unsigned n) ≤ 10
unfolding unsigned
length-unsigned n = length-decimal_rounds 10 n

pub length-unsigned_long : (v : ℤ) → length (unsigned_long v) ≤ 20
unfolding unsigned_long
length-unsigned_long (pos n) = length-decimal_rounds 20 (n % 2 ^ 64)
length-unsigned_long (negsuc n) = length-decimal_rounds 20 (2 ^ 64 - 1 - n % 2 ^ 64)

-- A number that fits its column fills it.
pub zero_padded_fits : (w n : ℕ) → 0 < w → n < 10 ^ w → length (zero_padded w (pos n)) ≡ w
unfolding zero_padded
zero_padded_fits w n some_left small = omega (
  arith,
  length-append (copies (w - length (decimal 10 n)) b'0') (decimal 10 n),
  length-copies (w - length (decimal 10 n)) b'0',
  length-decimal_le 10 w n some_left small,
)

pub right_fits : (w : ℕ) (bs : List ℕ) → length bs ≤ w → length (right w bs) ≡ w
right_fits w bs h = omega (arith, length-right w bs)

pub unsigned_fits : (w n : ℕ) → 0 < w → n < 10 ^ w → length (unsigned n) ≤ w
unfolding unsigned
unsigned_fits w n some_left small = length-decimal_le 10 w n some_left small

-- A string is shorter than its memory.
pub length-string_in : (m s : List ℕ) → string_in m ≡ some s → length s ≤ length m
unfolding string_in
length-string_in [] s h = cc
length-string_in (b ∷ bs) s h = elim (Bool-cases (b == 0)) [
  | inl e ↦ ground arith
  | inr e ↦ elim (Option-cases (string_in bs)) [
    | inl g ↦ ground arith
    | inr (t, g) ↦ ground (arith, length-string_in bs t g)
  ]
]
