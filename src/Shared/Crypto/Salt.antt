-- ===== src/Shared/Crypto/Salt.antt =====
-- `gen_salt` of shared/crypto.c: where it writes, and the string that it leaves.
use home_banking_system.Base.{
  ℕ, zero, suc, ◌+◌, ◌*◌, ◌/◌, ◌%◌, ◌≤◌, ◌<◌, ◌≡◌, refl, ap, ◌∙◌, some, List, [], ◌∷◌, ◌++◌, arith,
  length, length-append, ◌⊎◌, inl, inr,
}
use home_banking_system.Base.Int.{pos}
use home_banking_system.Types.{salt_len}
use home_banking_system.Os.Run.{Env, Sys, done, faulted, run, run_then}
use home_banking_system.Shared.Crypto.{
  c_string, write_at, hex_digit, hex_digits, sprintf_x, poke, salt_loop, gen_salt,
}
use home_banking_system.Shared.Crypto.Memory.{
  write_at_fits, write_at_past, write_at-c_string, write_at-c_string_before,
}

length-hex_digits : (k n : ℕ) (acc : List ℕ) → length (hex_digits k n acc) ≤ length acc + k
unfolding hex_digits
length-hex_digits zero n acc = omega arith
length-hex_digits (suc k) n acc =
    ground (arith, length-hex_digits k (n / 16) (hex_digit (n % 16) ∷ acc))

-- `%x` prints at most eight digits.
length-sprintf_x : (n : ℕ) → length (hex_digits 8 n []) ≤ 8
length-sprintf_x n = omega (arith, length-hex_digits 8 n [])

-- The state after `4 k` calls of `rand`.
abbrev pub rolled : ℕ → Sys → Sys
rolled k s = record s { calls = s.calls + 4 * k }

-- One round writes inside the memory, and ends the string there.
pub round_lem :
    (buf : List ℕ) (i n : ℕ)
    → 4 * i + 9 ≤ length buf
    → (r : List ℕ) × (write_at buf (i * 4) (sprintf_x n) ≡ some r)
      × (length r ≡ length buf)
      × (length (c_string r) ≤ 4 * i + 8)
unfolding sprintf_x
round_lem buf i n h =
    let (r, e, l) =
      write_at_fits buf (i * 4) (hex_digits 8 n [] ++ 0 ∷ [])
        (omega (arith, length-append (hex_digits 8 n []) (0 ∷ []), length-sprintf_x n)) in
    (
      r,
      e,
      l,
      omega (arith, write_at-c_string buf (i * 4) (hex_digits 8 n []) e, length-sprintf_x n),
    )

-- The number that `gen_random_int` makes next.
salt_word : Env → Sys → ℕ
salt_word env s =
    env.number s.calls % 0xff
    + (env.number (suc s.calls) % 0xff) * 0x100
    + (env.number (suc (suc s.calls)) % 0xff) * 0x10000
    + (env.number (suc (suc (suc s.calls))) % 0xff) * 0x1000000

-- What the loop leaves in memory, and where its last string ends.
abbrev SaltLoop : Env → ℕ → ℕ → List ℕ → Sys → Type 0
SaltLoop env k i buf s =
    (r : List ℕ) × (run env (salt_loop k i buf) s ≡ done r (rolled k s))
    × (length r ≡ length buf)
    × ((0 < k) ⊎ (length (c_string buf) ≤ 4 * i + 4) → length (c_string r) ≤ 4 * (i + k) + 4)

-- One round of the loop, as a step of the run.
salt_loop_step :
    (env : Env) (k i : ℕ) (buf : List ℕ) (s : Sys) {r : List ℕ}
    → write_at buf (i * 4) (sprintf_x (salt_word env s)) ≡ some r
    → run env (salt_loop (suc k) i buf) s ≡ run env (salt_loop k (suc i) r) (rolled 1 s)
unfolding run salt_loop salt_word
salt_loop_step env k i buf s e = ground arith

rolled-rolled : (k : ℕ) (s : Sys) → rolled k (rolled 1 s) ≡ rolled (suc k) s
rolled-rolled k s = ground arith

salt_loop_lem :
    (env : Env) (k i : ℕ) (buf : List ℕ) (s : Sys)
    → 4 * (i + k) + 5 ≤ length buf
    → SaltLoop env k i buf s
salt_loop_lem env zero i buf s h =
    (buf, unfold run salt_loop in ground arith, refl, λ p. omega arith)
salt_loop_lem env (suc k) i buf s h =
    let (r, e, l, c) = round_lem buf i (salt_word env s) (omega arith) in
    let (q, runs, l', c') = salt_loop_lem env k (suc i) r (rolled 1 s) (omega arith) in
    (
      q,
      salt_loop_step env k i buf s e ∙ runs ∙ ap (done q) (rolled-rolled k s),
      l' ∙ l,
      λ p. omega (arith, c' (inr (omega arith))),
    )

-- `gen_salt` as `create_account` calls it.
abbrev pub SaltMade : Env → List ℕ → Sys → List ℕ → Type 0
SaltMade env buf s r =
    (run env (gen_salt buf (salt_len + 1) salt_len) s ≡ done (pos 0, r) (rolled 15 s))
    × (length r ≡ length buf)
    × (length (c_string r) ≤ salt_len)

-- `gen_salt`, called as `create_account` calls it on memory of at least 66 bytes, one more than the
-- array, returns 0 in every environment after 60 calls of `rand`; no write leaves the memory, whose
-- size is kept, and the string that is left ends within the array.
pub gen_salt_lem :
    (env : Env) (buf : List ℕ) (s : Sys)
    → salt_len + 2 ≤ length buf
    → (r : List ℕ) × SaltMade env buf s r
unfolding run gen_salt
gen_salt_lem env buf s h =
    let (q, runs, l, c) = salt_loop_lem env 15 0 buf s (omega arith) in
    let (r, e, l') = write_at_fits q (salt_len + 1) (0 ∷ []) (omega arith) in
    let ends = c (inl (omega arith)) in
    (
      r,
      (
        run_then env (salt_loop 15 0 buf) _ s runs ∙ rw (e, poke) refl,
        l' ∙ l,
        omega (arith, ends, write_at-c_string_before q (salt_len + 1) (0 ∷ []) e (omega arith)),
      ),
    )

-- `gen_salt`, called as `create_account` calls it on memory of exactly the array's 65 bytes, runs
-- into undefined behaviour in every environment: after the 60 calls of `rand` its last write is out
-- of bounds.
pub gen_salt_overflow :
    (env : Env) (buf : List ℕ) (s : Sys)
    → length buf ≡ salt_len + 1
    → run env (gen_salt buf (salt_len + 1) salt_len) s ≡ faulted (rolled 15 s)
unfolding run gen_salt
gen_salt_overflow env buf s h =
    let (q, runs, l, c) = salt_loop_lem env 15 0 buf s (omega arith) in
    run_then env (salt_loop 15 0 buf) _ s runs
    ∙ rw (write_at_past q (salt_len + 1) 0 (omega arith), poke) refl
