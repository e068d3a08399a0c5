-- ===== src/Shared/Utilities/ReadBack.antt =====
-- `str_to_int` of shared/utilities.c on what `%d` prints.
use home_banking_system.Base.{
  ℕ, zero, suc, ◌+◌, ◌-◌, ◌/◌, ◌%◌, ◌^◌, ◌<◌, ◌≡◌, refl, sym, ap, ◌∙◌, Bool, true, false, List, [],
  ◌∷◌, ◌++◌, ltb, ◌==◌, arith, Bool-cases, inl, inr,
}
use home_banking_system.Base.Int.{ℤ, pos, negsuc}
use home_banking_system.Shared.Utilities.{
  is_space, is_digit, skip_space, digits, magnitude, signed, strtol, str_to_int,
}
use home_banking_system.Shared.Protocol.FifoName.{
  decimal, sprintf_d, digits-decimal, more_rounds, pow_suc,
}

abbrev BeginsWithDigit : List ℕ → Type 0
BeginsWithDigit bs = (c : ℕ) × (cs : List ℕ) × (bs ≡ c ∷ cs) × (is_digit c ≡ true)

decimal-BeginsWithDigit : (k n : ℕ) → n < 10 ^ k → 0 < k → BeginsWithDigit (decimal k n)
unfolding decimal is_digit
decimal-BeginsWithDigit zero n h some_left = absurd (omega arith)
decimal-BeginsWithDigit (suc k) n h some_left = elim (Bool-cases (ltb n 10)) [
  | inl e ↦ rw e (b'0' + n, [], refl, ground arith)
  | inr e ↦
      let (c, cs, f, d) =
        decimal-BeginsWithDigit k (n / 10) (omega (arith, pow_suc k))
          (more_rounds k n h (ground arith)) in
      rw e (c, cs ++ (b'0' + n % 10) ∷ [], ap (λ bs. bs ++ (b'0' + n % 10) ∷ []) f, d)
]

digits_step :
    (c : ℕ) (cs : List ℕ) → is_digit c ≡ true → digits 0 (c ∷ cs) ≡ digits (0 + (c - b'0')) cs
unfolding digits
digits_step c cs d = rw d refl

magnitude-digits :
    (all cs : List ℕ) (negative : Bool) (c n : ℕ)
    → is_digit c ≡ true
    → digits 0 (c ∷ cs) ≡ (n, [])
    → magnitude all negative (c ∷ cs) ≡ (negative, n, [])
unfolding magnitude
magnitude-digits all cs negative c n d e =
    rw d (ap (λ t. (negative, t.0, t.1)) (sym (digits_step c cs d) ∙ e))

not_space : (c : ℕ) → is_digit c ≡ true → is_space c ≡ false
unfolding is_digit is_space
not_space c d = ground arith

not_sign : (c : ℕ) → is_digit c ≡ true → ((c == b'-') ≡ false) × ((c == b'+') ≡ false)
unfolding is_digit
not_sign c d = (ground arith, ground arith)

signed-digits :
    (c n : ℕ) (cs : List ℕ)
    → is_digit c ≡ true
    → digits 0 (c ∷ cs) ≡ (n, [])
    → signed (c ∷ cs) (skip_space (c ∷ cs)) ≡ (false, n, [])
unfolding signed skip_space
signed-digits c n cs d e =
    let (minus, plus) = not_sign c d in
    rw (not_space c d, minus, plus) (magnitude-digits (c ∷ cs) cs false c n d e)

signed_minus :
    (c n : ℕ) (cs : List ℕ)
    → is_digit c ≡ true
    → digits 0 (c ∷ cs) ≡ (n, [])
    → signed (b'-' ∷ c ∷ cs) (skip_space (b'-' ∷ c ∷ cs)) ≡ (true, n, [])
unfolding signed skip_space is_space
signed_minus c n cs d e = magnitude-digits (b'-' ∷ c ∷ cs) cs true c n d e

-- What is read of digits alone, and of digits behind a minus.
read_positive :
    (s : List ℕ) (n : ℕ)
    → signed s (skip_space s) ≡ (false, n, [])
    → n < 2 ^ 31
    → str_to_int s ≡ pos n
unfolding str_to_int strtol
read_positive s n e small = rw (str_to_int, e) (ground arith)

read_negative :
    (s : List ℕ) (n : ℕ)
    → signed s (skip_space s) ≡ (true, suc n, [])
    → n < 2 ^ 31
    → str_to_int s ≡ negsuc n
unfolding str_to_int strtol
read_negative s n e small = rw (str_to_int, e) (ground arith)

-- An `int`.
abbrev pub InRange : ℤ → Type 0
InRange (pos n) = n < 2 ^ 31
InRange (negsuc n) = n < 2 ^ 31

-- The sign and the value of what `%d` prints.
abbrev pub sign_of : ℤ → Bool
sign_of (pos n) = false
sign_of (negsuc n) = true

abbrev pub value_of : ℤ → ℕ
value_of (pos n) = n
value_of (negsuc n) = suc n

pub signed-sprintf_d :
    (z : ℤ)
    → InRange z
    → signed (sprintf_d z) (skip_space (sprintf_d z)) ≡ (sign_of z, value_of z, [])
unfolding sprintf_d
signed-sprintf_d (pos n) h =
    let (c, cs, e, d) = decimal-BeginsWithDigit 10 n (omega (arith, h)) (omega arith) in
    ap (λ bs. signed bs (skip_space bs)) e
    ∙ signed-digits c n cs d
        (ap (digits 0) (sym e) ∙ digits-decimal 10 n (omega (arith, h)) (omega arith))
signed-sprintf_d (negsuc n) h =
    let (c, cs, e, d) = decimal-BeginsWithDigit 10 (suc n) (omega (arith, h)) (omega arith) in
    ap (λ bs. signed (b'-' ∷ bs) (skip_space (b'-' ∷ bs))) e
    ∙ signed_minus c (suc n) cs d
        (ap (digits 0) (sym e) ∙ digits-decimal 10 (suc n) (omega (arith, h)) (omega arith))

-- `str_to_int` reads back every `int` from what `printf` makes of it with "%d".
pub str_to_int-sprintf_d : (z : ℤ) → InRange z → str_to_int (sprintf_d z) ≡ z
str_to_int-sprintf_d (pos n) h = read_positive (sprintf_d (pos n)) n (signed-sprintf_d (pos n) h) h
str_to_int-sprintf_d (negsuc n) h =
    read_negative (sprintf_d (negsuc n)) n (signed-sprintf_d (negsuc n) h) h
