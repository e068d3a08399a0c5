-- ===== src/Shared/Accounts/Login.antt =====
-- `authenticate` of shared/account_utilities.c when no call fails.
use home_banking_system.Base.{
  ℕ, ◌+◌, ◌≤◌, ◌≡◌, ◌≢◌, refl, ◌∙◌, Bool, true, false, not, List, [], ◌∷◌, ◌++◌, arith, ◌==◌,
  if◌then◌else◌, length, bytes_eq, Bool-cases, inl, inr,
}
use home_banking_system.Base.Int.{ℤ, pos, not_zero}
use home_banking_system.Types.{
  Account, empty_account_id, max_password_len, salt_len, hash_len, code_of, rc_id_not_found,
}
use home_banking_system.Os.Run.{Env, Sys, done, run, run_then, tick, reliable, length-sized, sized}
use home_banking_system.Shared.Crypto.{c_string, strcmp, gen_hash}
use home_banking_system.Shared.Crypto.Digest.{IsDigest, digest, gen_hash_lem}
use home_banking_system.Shared.Accounts.{authenticate}

-- The arrays of an account have their sizes, and a salt in use ends within its own.
pub record IsStored (a : Account) : Type 0 where
  pub hash_size : length a.hash ≡ hash_len + 1
  pub salt_size : length a.salt ≡ salt_len + 3
  pub salt_ends : a.account_id ≢ empty_account_id → length (c_string a.salt) ≤ salt_len

-- The password is that of the account, which is in use.
unfoldable pub accepts : Env → List ℕ → Account → Bool
accepts env pwd a =
    if a.account_id == empty_account_id
    then false
    else bytes_eq (c_string (digest env pwd a.salt ++ 0 ∷ [])) (c_string a.hash)

pub accepts-in_use :
    (env : Env) (pwd : List ℕ) (a : Account)
    → accepts env pwd a ≡ true
    → a.account_id ≢ empty_account_id
unfolding accepts
accepts-in_use env pwd a h = ground arith

pub strcmp-bytes_eq : (xs ys : List ℕ) → not_zero (strcmp xs ys) ≡ not (bytes_eq xs ys)
unfolding strcmp
strcmp-bytes_eq [] [] = refl
strcmp-bytes_eq [] (y ∷ ys) = refl
strcmp-bytes_eq (x ∷ xs) [] = refl
strcmp-bytes_eq (x ∷ xs) (y ∷ ys) = ground (arith, strcmp-bytes_eq xs ys)

-- Only the count of calls and the pipe change.
abbrev pub authed : Account → Sys → Sys
authed a s = record s {
  calls = if a.account_id == empty_account_id then s.calls else s.calls + 11;
  piped = if a.account_id == empty_account_id then s.piped else [];
}

unfoldable pub verdict : Env → List ℕ → Account → ℤ
verdict env pwd a =
    if a.account_id == empty_account_id
    then pos (code_of rc_id_not_found)
    else strcmp (c_string (digest env pwd a.salt ++ 0 ∷ [])) (c_string a.hash)

pub verdict-accepts :
    (env : Env) (pwd : List ℕ) (a : Account)
    → not_zero (verdict env pwd a) ≡ not (accepts env pwd a)
unfolding verdict accepts
verdict-accepts env pwd a =
    ground (arith, strcmp-bytes_eq (c_string (digest env pwd a.salt ++ 0 ∷ [])) (c_string a.hash))

pub authenticate_lem :
    (env : Env) (pwd : List ℕ) (a : Account) (s : Sys)
    → IsDigest env
    → IsStored a
    → length pwd ≤ max_password_len
    → run (reliable env) (authenticate pwd a) s ≡ done (verdict env pwd a) (authed a s)
unfolding run authenticate verdict
authenticate_lem env pwd a s d h short = elim (Bool-cases (a.account_id == empty_account_id)) [
  | inl e ↦ rw (e, run) refl
  | inr e ↦ rw e (
      run_then (reliable env) (gen_hash pwd a.salt (sized 65 (env.bytes s.calls))) _ (tick s) (
        gen_hash_lem env pwd a.salt (sized 65 (env.bytes s.calls)) (tick s) d
          (ground (arith, h.salt_ends)) (length-sized 65 (env.bytes s.calls)))
      ∙ ground arith)
]
