-- ===== src/Shared/Protocol/FifoName.antt =====
-- `init_secure_fifo_name` of shared/com_protocol.c, for an array of `strlen(prefix) + WIDTH_PID + 1`
-- bytes, as both programs declare it. `none` is a write behind the array.
use home_banking_system.Base.{
  ℕ, zero, suc, ◌+◌, ◌-◌, ◌*◌, ◌/◌, ◌%◌, ◌^◌, ◌≤◌, ◌<◌, ◌≡◌, ap, ◌∙◌, Bool, true, false, Option,
  none, some, List, [], ◌∷◌, ◌++◌, ltb, ltb→lt, length, if◌then◌else◌, arith, length-append,
  Bool-cases, inl, inr,
}
use home_banking_system.Base.Int.{ℤ, pos, negsuc}
use home_banking_system.Types.{width_pid}
use home_banking_system.Shared.Utilities.{digits, is_digit}

-- `USER_FIFO_PATH_PREFIX`: "/tmp/secure_".
abbrev pub user_fifo_path_prefix : List ℕ
user_fifo_path_prefix =
    b'/' ∷ b't' ∷ b'm' ∷ b'p' ∷ b'/' ∷ b's' ∷ b'e' ∷ b'c' ∷ b'u' ∷ b'r' ∷ b'e' ∷ b'_' ∷ []

-- The decimal digits of a number, at most as many as there are rounds. An `int` has ten.
unfoldable pub decimal : ℕ → ℕ → List ℕ
decimal zero n = []
decimal (suc k) n =
    let front = decimal k (n / 10) in
    if ltb n 10 then (b'0' + n) ∷ [] else front ++ (b'0' + n % 10) ∷ []

-- `sprintf` with "%d".
unfoldable pub sprintf_d : ℤ → List ℕ
unfolding decimal
sprintf_d (pos n) = decimal 10 n
sprintf_d (negsuc n) = b'-' ∷ decimal 10 (suc n)

unfoldable pub init_secure_fifo_name : ℤ → Option (List ℕ)
unfolding sprintf_d
init_secure_fifo_name pid =
    let name = user_fifo_path_prefix ++ sprintf_d pid in
    if ltb (length user_fifo_path_prefix + width_pid) (length name) then none else some name

-- Digits go on from those before them.
digits-append :
    (xs : List ℕ) (acc d : ℕ)
    → d < 10
    → (n : ℕ) → digits acc xs ≡ (n, [])
    → digits acc (xs ++ (b'0' + d) ∷ []) ≡ (n * 10 + d, [])
unfolding digits is_digit
digits-append [] acc d small n e = ground arith
digits-append (x ∷ xs) acc d small n e = elim (Bool-cases (is_digit x)) [
  | inl f ↦ rw f (digits-append xs (acc * 10 + (x - b'0')) d small n (ground arith))
  | inr f ↦ absurd (ground arith)
]

pub pow_suc : (j : ℕ) → 10 ^ suc j ≡ 10 * 10 ^ j
pow_suc j = omega arith

pow_positive : (j : ℕ) → 0 < 10 ^ j
pow_positive zero = omega arith
pow_positive (suc j) = omega (arith, pow_suc j, pow_positive j)

pub more_rounds : (k n : ℕ) → n < 10 ^ suc k → 10 ≤ n → 0 < k
more_rounds zero n h least = absurd (omega arith)
more_rounds (suc k) n h least = omega arith

-- The digits read back.
pub digits-decimal : (k n : ℕ) → n < 10 ^ k → 0 < k → digits 0 (decimal k n) ≡ (n, [])
unfolding decimal digits is_digit
digits-decimal zero n h some_left = absurd (omega arith)
digits-decimal (suc k) n h some_left = elim (Bool-cases (ltb n 10)) [
  | inl e ↦ rw e (ground arith)
  | inr e ↦
      let more = more_rounds k n h (ground arith) in
      rw e (
        digits-append (decimal k (n / 10)) 0 (n % 10) (omega arith) (n / 10)
          (digits-decimal k (n / 10) (omega (arith, pow_suc k)) more)
        ∙ ap (λ m. (m, [])) (omega arith))
]

pub length-decimal_le : (k j n : ℕ) → 0 < j → n < 10 ^ j → length (decimal k n) ≤ j
unfolding decimal
length-decimal_le zero j n some_left h = omega arith
length-decimal_le (suc k) zero n some_left h = absurd (omega arith)
length-decimal_le (suc k) (suc j) n some_left h = elim (Bool-cases (ltb n 10)) [
  | inl e ↦ rw e (omega arith)
  | inr e ↦
      let more = more_rounds j n h (ground arith) in
      rw e (
        omega (
          arith,
          length-append (decimal k (n / 10)) ((b'0' + n % 10) ∷ []),
          length-decimal_le k j (n / 10) more (omega (arith, pow_suc j)),
        ))
]

length-decimal_ge : (k j n : ℕ) → j < k → 10 ^ j ≤ n → j < length (decimal k n)
unfolding decimal
length-decimal_ge zero j n some_left h = absurd (omega arith)
length-decimal_ge (suc k) zero n some_left h = elim (Bool-cases (ltb n 10)) [
  | inl e ↦ rw e (omega arith)
  | inr e ↦ rw e (omega (arith, length-append (decimal k (n / 10)) ((b'0' + n % 10) ∷ [])))
]
length-decimal_ge (suc k) (suc j) n some_left h = elim (Bool-cases (ltb n 10)) [
  | inl e ↦ absurd (omega (arith, pow_suc j, pow_positive j, ltb→lt n 10 e))
  | inr e ↦ rw e (
      omega (
        arith,
        length-append (decimal k (n / 10)) ((b'0' + n % 10) ∷ []),
        length-decimal_ge k j (n / 10) (omega arith) (omega (arith, pow_suc j)),
      ))
]

-- What becomes of a number that fits, and of one that does not.
abbrev pub IsNamed : ℕ → Bool → Type 0
IsNamed pid true =
    (ds : List ℕ) × (init_secure_fifo_name (pos pid) ≡ some (user_fifo_path_prefix ++ ds))
    × (digits 0 ds ≡ (pid, []))
IsNamed pid false = init_secure_fifo_name (pos pid) ≡ none

-- A process whose number has at most `WIDTH_PID` digits gets a name, in which the number can be read
-- behind the prefix, so no two processes have the same; for a larger number the write goes beyond the
-- array that both programs declare.
pub init_secure_fifo_name_lem : (pid : ℕ) → pid < 2 ^ 31 → IsNamed pid (ltb pid 100_000)
unfolding init_secure_fifo_name sprintf_d
init_secure_fifo_name_lem pid small = elim (Bool-cases (ltb pid 100_000)) [
  | inl e ↦ rw e (
    decimal 10 pid,
    ground (arith, length-decimal_le 10 5 pid),
    digits-decimal 10 pid (omega (arith, small)) (omega arith),
  )
  | inr e ↦ rw e (ground (arith, length-decimal_ge 10 5 pid))
]
