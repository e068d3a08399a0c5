-- ===== src/Server/Requests/Balance.antt =====
-- `balance_request` when no call fails.
use home_banking_system.Base.{
  ℕ, ◌≡◌, refl, subst, ◌∙◌, inl, inr, [], arith, if◌then◌else◌, Bool-cases,
}
use home_banking_system.Base.Int.{ℤ, pos, to_int-pos}
use home_banking_system.Types.{Account, ReqValue, RetCode, role_account}
use home_banking_system.Os.Run.{Env, Sys, done, run, run_then, reliable, Ends, Ends-of_eq}
use home_banking_system.Shared.Crypto.Digest.{IsDigest}
use home_banking_system.Shared.Accounts.{load_account}
use home_banking_system.Shared.Accounts.Login.{authed}
use home_banking_system.Shared.Accounts.Create.{load_account_lem}
use home_banking_system.Server.Sync.{lock_accounts_db_mutex}
use home_banking_system.Server.Sync.Alone.{lock_lem}
use home_banking_system.Server.Requests.{
  is_ok, is_valid_balance_request, balance_if_valid, balance_request, delay_holding,
}
use home_banking_system.Server.Requests.Errors.{
  IsFirstError, orig, balance_errors, balance_code, balance_code-first,
}
use home_banking_system.Server.Requests.Checks.{
  IsRequest, IsLogin, header_only, header_only-IsRequest, AllStored, delay_lem, balance_check_lem,
}
use home_banking_system.Server.Requests.Release.{release_one_lem}

-- What a balance check on the accounts `f` returns and leaves.
abbrev pub BalanceEffect : Env → (ℕ → Account) → ReqValue → ℕ → RetCode × ℕ → Sys → Type 0
BalanceEffect env f v final_balance r t =
    IsFirstError (balance_errors env f v) r.0
    × (t.held ≡ [])
    × (t.accounts ≡ f)
    × (r.1 ≡ (if is_ok r.0 then (f v.header.account_id).balance else final_balance))

balance_if_valid_lem :
    (env : Env) (v : ReqValue) (final_balance : ℕ) (s : Sys)
    → IsDigest env
    → IsRequest v
    → AllStored s.accounts
    → run (reliable env) (balance_if_valid v final_balance) s
      ≡ done
          (
            balance_code env s.accounts v,
            if is_ok (balance_code env s.accounts v)
                then (s.accounts v.header.account_id).balance
                else final_balance,
          )
          (authed (orig env s.accounts v) s)
unfolding balance_if_valid run
balance_if_valid_lem env v final_balance s d q h =
    run_then (reliable env) (is_valid_balance_request v) _ s (balance_check_lem env v s d q h)
    ∙ elim (Bool-cases (is_ok (balance_code env s.accounts v))) [
      | inl e ↦ rw e (
          run_then (reliable env) (load_account v.header.account_id) _ _
            (load_account_lem (reliable env) v.header.account_id _ q.header_id))
      | inr e ↦ rw e refl
    ]

balance_request_lem :
    (env : Env) (v : ReqValue) (id : ℤ) (final_balance : ℕ) (s : Sys)
    → IsDigest env
    → IsRequest v
    → AllStored s.accounts
    → s.held ≡ []
    → Ends
        (BalanceEffect env s.accounts v final_balance)
        (run (reliable env) (balance_request v id final_balance) s)
unfolding balance_request
balance_request_lem env v id final_balance s d q h free =
    let i : ℕ = v.header.account_id in
    rw (to_int-pos i (omega (arith, q.header_id))) (
      Ends-of_eq (BalanceEffect env s.accounts v final_balance)
        (run_then (reliable env) (lock_accounts_db_mutex id role_account (pos i)) _ s
            (lock_lem env id role_account i s q.header_id (rw free refl) (rw free refl))
          ∙ run_then (reliable env) (delay_holding v id (pos i)) _ _
              (delay_lem env v id (pos i) _ (rw free refl))
          ∙ run_then (reliable env) (balance_if_valid v final_balance) _ _
              (balance_if_valid_lem env v final_balance _ d q h)
          ∙ release_one_lem env id _ _ i q.header_id (rw free refl))
        (balance_code-first env s.accounts v, refl, refl, refl))

pub balance_request-header_only :
    (v : ReqValue) (id : ℤ) (b : ℕ) → balance_request (header_only v) id b ≡ balance_request v id b
unfolding balance_request balance_if_valid is_valid_balance_request delay_holding
balance_request-header_only v id b = refl

-- When no call fails, `balance_request` for a header with the number of an account and a
-- password that fits, run by an office that holds no
-- mutex, returns `RC_OK` or the first error in the order of `ret_code`; it changes no account, holds
-- no mutex at its end, and reports the account's balance if and only if it returns `RC_OK`.
pub balance_request_effect :
    (env : Env) (v : ReqValue) (id : ℤ) (final_balance : ℕ) (s : Sys)
    → IsDigest env
    → IsLogin v
    → AllStored s.accounts
    → s.held ≡ []
    → Ends
        (BalanceEffect env s.accounts v final_balance)
        (run (reliable env) (balance_request v id final_balance) s)
balance_request_effect env v id final_balance s d q h free =
    subst (λ p. Ends (BalanceEffect env s.accounts v final_balance) (run (reliable env) p s))
      (balance_request-header_only v id final_balance)
      (balance_request_lem env (header_only v) id final_balance s d (header_only-IsRequest v q) h
        free)
