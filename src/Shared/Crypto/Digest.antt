-- ===== src/Shared/Crypto/Digest.antt =====
-- What `gen_hash` computes when no call fails.
use home_banking_system.Base.{
  ℕ, zero, suc, ◌+◌, ◌<◌, ◌≡◌, refl, ap, some, List, [], ◌∷◌, ◌++◌, arith, length, take, set,
  length-append,
}
use home_banking_system.Base.Int.{pos}
use home_banking_system.Types.{max_password_len, salt_len, hash_len}
use home_banking_system.Os.Run.{Env, Sys, done, run, reliable, stdin_name}
use home_banking_system.Shared.Crypto.{c_string, overlay, read_into, gen_hash}

take-append_suc :
    (n : ℕ) (d : List ℕ) (x : ℕ) (r : List ℕ)
    → length d ≡ n
    → take (suc n) (d ++ x ∷ r) ≡ d ++ x ∷ []
take-append_suc zero [] x r h = refl
take-append_suc zero (y ∷ d) x r h = absurd (omega arith)
take-append_suc (suc n) [] x r h = absurd (omega arith)
take-append_suc (suc n) (y ∷ d) x r h = ap (◌∷◌ y) (take-append_suc n d x r (omega arith))

overlay_full : (m bs : List ℕ) → length m ≡ length bs → overlay m bs ≡ some bs
unfolding overlay
overlay_full [] [] h = refl
overlay_full [] (b ∷ bs) h = absurd (omega arith)
overlay_full (x ∷ m) [] h = absurd (omega arith)
overlay_full (x ∷ m) (b ∷ bs) h = rw (overlay_full m bs (omega arith))

set-append_last :
    (n : ℕ) (d : List ℕ) (x y : ℕ) → length d ≡ n → set (d ++ x ∷ []) n y ≡ d ++ y ∷ []
set-append_last zero [] x y h = refl
set-append_last zero (z ∷ d) x y h = absurd (omega arith)
set-append_last (suc n) [] x y h = absurd (omega arith)
set-append_last (suc n) (z ∷ d) x y h = ap (◌∷◌ z) (set-append_last n d x y (omega arith))

-- A digest is 64 digits, whatever the input.
abbrev pub IsDigest : Env → Type 0
IsDigest env = (bs : List ℕ) → length (env.sha256sum bs) ≡ hash_len

-- The digits for a password and the memory of a salt.
unfoldable pub digest : Env → List ℕ → List ℕ → List ℕ
digest env pwd salt = env.sha256sum (pwd ++ c_string salt)

-- A run of `gen_hash` makes ten calls and leaves the bank's memory alone.
abbrev pub hashed : Sys → Sys
hashed s = record s { calls = s.calls + 10; piped = [] }

memory_lem :
    (d hash : List ℕ)
    → length d ≡ hash_len
    → length hash ≡ hash_len + 1
    → set (read_into hash (take (hash_len + 1) (d ++ stdin_name))) hash_len 0 ≡ d ++ 0 ∷ []
unfolding read_into
memory_lem d hash hd hh = rw (take-append_suc hash_len d 32 (32 ∷ b'-' ∷ 10 ∷ []) hd) (
    rw (overlay_full hash (d ++ 32 ∷ []) (omega (arith, length-append d (32 ∷ []))), read_into)
      (set-append_last hash_len d 32 0 hd))

pub gen_hash_lem :
    (env : Env) (pwd salt hash : List ℕ) (s : Sys)
    → IsDigest env
    → length pwd + length (c_string salt) < max_password_len + salt_len + 1
    → length hash ≡ hash_len + 1
    → run (reliable env) (gen_hash pwd salt hash) s
      ≡ done (pos 0, digest env pwd salt ++ 0 ∷ []) (hashed s)
unfolding run gen_hash digest
gen_hash_lem env pwd salt hash s h fits hh = ground (
  arith,
  length-append pwd (c_string salt),
  memory_lem (env.sha256sum (pwd ++ c_string salt)) hash (h (pwd ++ c_string salt)) hh,
)
