-- ===== src/Server/Requests/Transfer.antt =====
-- `transfer_request` when no call fails.
pub mod Body
pub mod Branches
use home_banking_system.Base.{
  ℕ, ◌+◌, ◌≤◌, ◌<◌, ◌≡◌, ◌≢◌, ◌⊎◌, fun_ext, refl, sym, ap, subst, ◌∙◌, inl, inr, true, false, [],
  ◌∷◌, arith, ◌==◌, if◌then◌else◌, length, Bool-cases, ltb, ltb→lt, ne→==, ==_iff, ==_refl,
}
use native.Mathlib.Nat.{add-zero}
use home_banking_system.Base.Int.{ℤ, pos, to_int, to_int-pos}
use home_banking_system.Types.{
  Account, ReqValue, transfer_of, RetCode, rc_ok, rc_login_fail, max_bank_accounts,
  empty_account_id, max_balance, role_account, op_mutex_lock,
}
use home_banking_system.Os.{accounts_db_mutex}
use home_banking_system.Os.Run.{
  Env, Sys, Outcome, done, run, run_then, reliable, update, Ends, Ends-of_eq, Ends-mono,
}
use home_banking_system.Shared.Crypto.Digest.{IsDigest}
use home_banking_system.Shared.Accounts.{load_account, authenticate}
use home_banking_system.Shared.Accounts.Login.{
  accepts, accepts-in_use, authed, verdict, verdict-accepts,
}
use home_banking_system.Shared.Accounts.Create.{load_account_lem}
use home_banking_system.Server.Sync.{lock_accounts_db_mutex}
use home_banking_system.Server.Sync.Alone.{switched, lock_lem}
use home_banking_system.Server.Requests.{
  is_ok, min, max, is_valid_transfer_request, transfer_if_valid, transfer_to_self, transfer_locked,
  transfer_to_other, transfer_request, delay_holding, release_one, release_two,
}
use home_banking_system.Server.Requests.Errors.{
  IsFirstError, orig, logged_in, WithinLimit, transfer_errors, documented_errors, documented-eq,
  transfer_checks, transfer_code, transfer_code-first,
}
use home_banking_system.Server.Requests.Checks.{
  IsRequest, AllStored, delayed, delay_lem, login_then, transfer_check_lem,
}
use home_banking_system.Server.Requests.Release.{release_one_lem, release_two_lem}
use Body.{paid}
use Branches.{TransferDone, to_self_lem, to_other_lem}

-- The order of two numbers of accounts, which the conversions to `int` keep.
pub min-max-lt : (a b : ℕ) → a < b → (min (pos a) (pos b) ≡ pos a) × (max (pos a) (pos b) ≡ pos b)
unfolding min max
min-max-lt a b lt = ground arith

pub min-max-gt : (a b : ℕ) → b < a → (min (pos a) (pos b) ≡ pos b) × (max (pos a) (pos b) ≡ pos a)
unfolding min max
min-max-gt a b lt = ground arith

pub min-max-eq : (a b : ℕ) → a ≡ b → (min (pos a) (pos b) ≡ pos a) × (max (pos a) (pos b) ≡ pos a)
unfolding min max
min-max-eq a b e = ground arith

module _ (env : Env) (v : ReqValue) (id : ℤ) (final_balance : ℕ) (s : Sys) (d : IsDigest env)
    (q : IsRequest v) (h : AllStored s.accounts) (ho : WithinLimit (s.accounts v.header.account_id))
    (hd : WithinLimit (s.accounts (transfer_of v).account_id)) where
  -- From the first lock to the branch on the two numbers, `i` the smaller and `j` the larger.
  begin_lem :
      (i j : ℕ)
      → (min (pos v.header.account_id) (pos (transfer_of v).account_id) ≡ pos i)
        × (max (pos v.header.account_id) (pos (transfer_of v).account_id) ≡ pos j)
      → i < max_bank_accounts
      → s.held ≡ []
      → run (reliable env) (transfer_request v id final_balance) s
        ≡ run
            (reliable env)
            (if i == j
              then transfer_to_self v id (pos i) final_balance
              else transfer_to_other v id (pos i) (pos j) final_balance)
            (delayed v id
              (pos v.header.account_id)
              (switched op_mutex_lock id role_account i (accounts_db_mutex i ∷ s.held) s))
  unfolding transfer_request
  begin_lem i j (lo, hi) lt free =
      rw
        (
          to_int-pos v.header.account_id (omega (arith, q.header_id)),
          to_int-pos (transfer_of v).account_id (omega (arith, q.other_id)),
          lo,
          hi,
        )
        (run_then (reliable env) (lock_accounts_db_mutex id role_account (pos i)) _ s
            (lock_lem env id role_account i s lt (rw free refl) (rw free refl))
          ∙ run_then (reliable env) (delay_holding v id (pos v.header.account_id)) _ _
              (delay_lem env v id (pos v.header.account_id) _ (rw free refl))
          ∙ simp add-zero)

  transfer_request_lem :
      s.held ≡ []
      → Ends
          (TransferDone env s.accounts v final_balance)
          (run (reliable env) (transfer_request v id final_balance) s)
  transfer_request_lem free =
      let a : ℕ = v.header.account_id in
      let b : ℕ = (transfer_of v).account_id in
      elim (Bool-cases (a == b)) [
        | inl e ↦
            Ends-of_eq (TransferDone env s.accounts v final_balance)
              (begin_lem a a (min-max-eq a b ((==_iff a b).0 e)) q.header_id free)
              (rw (==_refl a) (
                to_self_lem env v id final_balance _ d q h ho hd ((==_iff a b).0 e) (rw free refl)))
        | inr e ↦ elim (Bool-cases (ltb a b)) [
          | inl l ↦
              Ends-of_eq (TransferDone env s.accounts v final_balance)
                (begin_lem a b (min-max-lt a b (ltb→lt a b l)) q.header_id free)
                (rw e (
                  to_other_lem env v id final_balance _ d q h ho hd a b q.header_id q.other_id
                    (ground arith) (ground arith) (rw free refl)))
          | inr l ↦
              Ends-of_eq (TransferDone env s.accounts v final_balance)
                (begin_lem b a (min-max-gt a b (ground arith)) q.other_id free)
                (rw (ne→== b a (ground arith)) (
                  to_other_lem env v id final_balance _ d q h ho hd b a q.other_id q.header_id
                    (ground arith) (ground arith) (rw free refl)))
        ]
      ]

-- What a transfer from the accounts `f` returns and leaves.
abbrev pub TransferEffect : Env → (ℕ → Account) → ReqValue → ℕ → RetCode × ℕ → Sys → Type 0
TransferEffect env f v final_balance r t =
    IsFirstError (transfer_errors env f v) r.0
    × (((f v.header.account_id).balance ≡ (transfer_of v).amount)
        ⊎ IsFirstError (documented_errors env f v) r.0)
    × (t.held ≡ [])
    × (t.accounts ≡ (if is_ok r.0 then paid f v else f))
    × (r.1
        ≡ (if logged_in env f v then (t.accounts v.header.account_id).balance else final_balance))

==_ne : (a b : ℕ) → (a == b) ≡ false → a ≢ b
==_ne a b e = ground arith

as_documented :
    (env : Env) (f : ℕ → Account) (v : ReqValue) (c : RetCode)
    → IsFirstError (transfer_errors env f v) c
    → ((f v.header.account_id).balance ≡ (transfer_of v).amount)
      ⊎ IsFirstError (documented_errors env f v) c
as_documented env f v c first =
    let a = (f v.header.account_id).balance in
    let b = (transfer_of v).amount in
    elim (Bool-cases (a == b)) [
      | inl e ↦ inl ((==_iff a b).0 e)
      | inr e ↦ inr (
          subst (λ errors. IsFirstError errors c) (fun_ext (documented-eq env f v (==_ne a b e)))
            first)
    ]

-- When no call fails, `transfer_request` for two numbers of accounts, run by an office that holds no
-- mutex on accounts within the limit, returns `RC_OK` if the request has no error and otherwise the
-- first error in the order of `ret_code`; only in the first case do accounts change, the amount
-- leaving the one and reaching the other; the office again holds no mutex; and the balance that is
-- reported is that of the account after the operation, or nothing, `final_balance` as it was, if the
-- password is wrong. The error RC_NO_FUNDS is here the code's, a balance below the amount. The one that
-- shared/types.h documents, a final balance below `MIN_BALANCE`, which is 1, also covers an amount equal
-- to the balance, which the code accepts against it; for every other amount the code that is returned
-- is the one that the documented errors give, too.
pub transfer_request_effect :
    (env : Env) (v : ReqValue) (id : ℤ) (final_balance : ℕ) (s : Sys)
    → IsDigest env
    → IsRequest v
    → AllStored s.accounts
    → WithinLimit (s.accounts v.header.account_id)
    → WithinLimit (s.accounts (transfer_of v).account_id)
    → s.held ≡ []
    → Ends
        (TransferEffect env s.accounts v final_balance)
        (run (reliable env) (transfer_request v id final_balance) s)
transfer_request_effect env v id final_balance s d q h ho hd free =
    Ends-mono {P = TransferDone env s.accounts v final_balance}
      {Q = TransferEffect env s.accounts v final_balance}
      (run (reliable env) (transfer_request v id final_balance) s)
      (transfer_request_lem env v id final_balance s d q h ho hd free)
      λ r t done. (
        subst (IsFirstError (transfer_errors env s.accounts v)) (sym done.code)
            (transfer_code-first env s.accounts v ho hd),
        as_documented env s.accounts v r.0 (
            subst (IsFirstError (transfer_errors env s.accounts v)) (sym done.code)
              (transfer_code-first env s.accounts v ho hd)),
        done.released,
        rw done.code done.accounts,
        done.reported,
      )
