-- ===== src/Shared/Crypto.antt =====
-- shared/crypto.c: salts, and hashes made by a child process that runs `sha256sum`.
pub mod Digest
pub mod Memory
pub mod Salt
use home_banking_system.Base.{
  ℕ, zero, suc, ◌+◌, ◌-◌, ◌*◌, ◌/◌, ◌%◌, Bool, true, false, Option, none, some, List, [], ◌∷◌, ◌++◌,
  ltb, leb, ◌==◌, if◌then◌else◌, length, set,
}
use home_banking_system.Base.Int.{ℤ, pos, negsuc, not_zero, eqb_ℤ, ltb_ℤ}
use home_banking_system.Types.{max_password_len, salt_len, hash_len}
use home_banking_system.Os.{
  Prog, ret, undefined, ◌>>=◌, ◌>>◌, do_call, rand, pipe, fork, waitpid, execlp, close_end, dup2,
  write_pipe, read_pipe,
}

-- A C string in memory: the bytes before the first NUL.
unfoldable pub c_string : List ℕ → List ℕ
c_string [] = []
c_string (b ∷ bs) = if b == 0 then [] else b ∷ c_string bs

-- `strcmp`: zero for equal strings, and otherwise the sign of the first difference.
unfoldable pub strcmp : List ℕ → List ℕ → ℤ
strcmp [] [] = pos 0
strcmp [] (b ∷ bs) = negsuc 0
strcmp (a ∷ r) [] = pos 1
strcmp (a ∷ r) (b ∷ bs) = if a == b then strcmp r bs else if ltb a b then negsuc 0 else pos 1

-- Bytes laid over memory from its start; `none` past the end of it.
unfoldable pub overlay : List ℕ → List ℕ → Option (List ℕ)
overlay m [] = some m
overlay [] (b ∷ bs) = none
overlay (x ∷ m) (b ∷ bs) = elim (overlay m bs) [ none ↦ none | some r ↦ some (b ∷ r) ]

-- The same from an offset.
unfoldable pub write_at : List ℕ → ℕ → List ℕ → Option (List ℕ)
unfolding overlay
write_at m zero bs = overlay m bs
write_at [] (suc n) bs = none
write_at (x ∷ m) (suc n) bs = elim (write_at m n bs) [ none ↦ none | some r ↦ some (x ∷ r) ]

-- `gen_random_int`, as the bit pattern of the `int`: four bytes from 0 to 0xfe. The shift
-- of the last one by 24 may reach the sign's bit; the compilers that the program is built with shift
-- the pattern.
unfoldable pub gen_random_int : Prog ℕ
gen_random_int = do
  a ← do_call rand
  b ← do_call rand
  c ← do_call rand
  d ← do_call rand
  ret (a % 0xff + (b % 0xff) * 0x100 + (c % 0xff) * 0x10000 + (d % 0xff) * 0x1000000)

pub hex_digit : ℕ → ℕ
hex_digit d = if ltb d 10 then d + b'0' else d - 10 + b'a'

-- The digits of `%x`, the last one first in the argument; 8 rounds serve for 32 bits.
pub hex_digits : ℕ → ℕ → List ℕ → List ℕ
hex_digits zero n acc = acc
hex_digits (suc k) n acc =
    let acc' : List ℕ = hex_digit (n % 16) ∷ acc in
    let more = hex_digits k (n / 16) acc' in if n / 16 == 0 then acc' else more

-- `sprintf(…, "%x", n)`, its NUL included.
unfoldable pub sprintf_x : ℕ → List ℕ
unfolding hex_digits hex_digit
sprintf_x n = hex_digits 8 n [] ++ 0 ∷ []

-- A write to memory, undefined outside it.
unfoldable pub poke : List ℕ → ℕ → List ℕ → Prog (List ℕ)
poke m n bs = elim (write_at m n bs) [ none ↦ undefined | some r ↦ ret r ]

-- The loop of `gen_salt` with `k` rounds left, at round `i`.
unfoldable pub salt_loop : ℕ → ℕ → List ℕ → Prog (List ℕ)
unfolding gen_random_int poke
salt_loop zero i buf = ret buf
salt_loop (suc k) i buf = do
  n ← gen_random_int
  buf' ← poke buf (i * 4) (sprintf_x n)
  salt_loop k (suc i) buf'

-- `gen_salt`; `buf` is the memory from the buffer's start.
unfoldable pub gen_salt : List ℕ → ℕ → ℕ → Prog (ℤ × List ℕ)
unfolding salt_loop poke
gen_salt buf buf_size salt_size = if leb buf_size salt_size then ret (negsuc 0, buf) else do
  buf' ← salt_loop (salt_size / 4 - 1) 0 buf
  buf'' ← poke buf' buf_size (0 ∷ [])
  ret (pos 0, buf'')

-- `read` of up to the memory's size: the bytes that came, over the old ones.
unfoldable pub read_into : List ℕ → List ℕ → List ℕ
unfolding overlay
read_into m bs = elim (overlay m bs) [ none ↦ m | some r ↦ r ]

-- Ends of the pipes: `fd1` is 0 and 1, `fd2` is 2 and 3, the reading end first.
unfoldable pub parent : List ℕ → List ℕ → Prog (ℤ × List ℕ)
parent pass_salt hash = do
  r ← do_call (close_end 0)
  if eqb_ℤ r (negsuc 0) then ret (negsuc 0, hash) else do
    r ← do_call (close_end 3)
    if eqb_ℤ r (negsuc 0) then ret (negsuc 0, hash) else do
      r ← do_call (write_pipe pass_salt)
      if eqb_ℤ r (negsuc 0) then ret (negsuc 0, hash) else do
        r ← do_call (close_end 1)
        if eqb_ℤ r (negsuc 0) then ret (negsuc 0, hash) else do
          out ← do_call (read_pipe (hash_len + 1))
          if eqb_ℤ out.0 (negsuc 0) then ret (negsuc 0, hash) else do
            r ← do_call (close_end 2)
            if eqb_ℤ r (negsuc 0)
                then ret (negsuc 0, read_into hash out.1)
                else do do_call waitpid; ret (pos 0, set (read_into hash out.1) hash_len 0)

unfoldable pub child : List ℕ → Prog (ℤ × List ℕ)
child hash = do
  r ← do_call (close_end 1)
  if eqb_ℤ r (negsuc 0) then ret (negsuc 0, hash) else do
    r ← do_call (close_end 2)
    if eqb_ℤ r (negsuc 0)
        then ret (negsuc 0, hash)
        else do do_call (dup2 0 0); do_call (dup2 3 1); do_call execlp; ret (pos 0, hash)

-- The two pipes and the `fork`, with the password and the salt already joined.
unfoldable pub hash_process : List ℕ → List ℕ → Prog (ℤ × List ℕ)
unfolding parent child
hash_process pass_salt hash = do
  r ← do_call pipe
  if not_zero r then ret (negsuc 0, hash) else do
    r ← do_call pipe
    if not_zero r then ret (negsuc 0, hash) else do
      pid ← do_call fork
      if eqb_ℤ pid (negsuc 0)
          then ret (negsuc 2, hash)
          else if ltb_ℤ (pos 0) pid
          then parent pass_salt hash
          else child hash

-- `gen_hash`: its result and what it leaves in the memory `hash`. The two `strcat` are undefined
-- past the end of `pass_salt`.
unfoldable pub gen_hash : List ℕ → List ℕ → List ℕ → Prog (ℤ × List ℕ)
unfolding hash_process
gen_hash pwd salt hash =
    let pass_salt : List ℕ = pwd ++ c_string salt in
    if ltb (length pass_salt) (max_password_len + salt_len + 1)
    then hash_process pass_salt hash
    else undefined
