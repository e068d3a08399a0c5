-- ===== src/Server/Requests/Checks.antt =====
-- The validity checks and the steps around them, run when no call fails.
use home_banking_system.Base.{
  ℕ, ◌+◌, ◌≤◌, ◌<◌, ◌≡◌, ◌∙◌, false, ◌∷◌, arith, ◌==◌, length, Bool-cases, inl, inr,
}
use home_banking_system.Base.Int.{ℤ}
use home_banking_system.Types.{Account, ReqValue, max_bank_accounts, max_password_len}
use home_banking_system.Os.{Prog, ◌>>=◌, log_mutex, sync_delay}
use home_banking_system.Os.Run.{Env, Sys, done, run, run_then, reliable, is_held, update}
use home_banking_system.Shared.Crypto.Digest.{IsDigest}
use home_banking_system.Shared.Accounts.{load_account, authenticate}
use home_banking_system.Shared.Accounts.Login.{
  IsStored, authed, verdict, verdict-accepts, authenticate_lem,
}
use home_banking_system.Shared.Accounts.Create.{load_account_lem}
use home_banking_system.Server.Sync.{stdout_fileno}
use home_banking_system.Server.SyncLog.{sync_log_sync_delay}
use home_banking_system.Server.Requests.{
  is_valid_create_request, is_valid_transfer_request, is_valid_balance_request,
  is_valid_shutdown_request, delay_holding,
}
use home_banking_system.Server.Requests.Errors.{
  orig, create_code, transfer_checks, balance_code, shutdown_code,
}

-- The numbers in the request are those of accounts, and the password is not too long.
pub record IsRequest (v : ReqValue) : Type 0 where
  pub header_id : v.header.account_id < max_bank_accounts
  pub other_id : v.word0 < max_bank_accounts
  pub password : length v.header.password ≤ max_password_len

-- The same of the header alone, which is all that a balance check or a shutdown reads.
pub record IsLogin (v : ReqValue) : Type 0 where
  pub header_id : v.header.account_id < max_bank_accounts
  pub password : length v.header.password ≤ max_password_len

-- The request with nothing behind its header.
abbrev pub header_only : ReqValue → ReqValue
header_only v = record v { word0 = 0 }

pub header_only-IsRequest : (v : ReqValue) → IsLogin v → IsRequest (header_only v)
header_only-IsRequest v q = record {
  header_id = q.header_id;
  other_id = omega arith;
  password = q.password;
}

-- Every account's arrays have their sizes.
abbrev pub AllStored : (ℕ → Account) → Type 0
AllStored f = (i : ℕ) → i < max_bank_accounts → IsStored (f i)

pub AllStored-update :
    (f : ℕ → Account) (i : ℕ) (a : Account) → AllStored f → IsStored a → AllStored (update f i a)
AllStored-update f i a h ha j lt = elim (Bool-cases (i == j)) [
  | inl e ↦ rw e ha
  | inr e ↦ rw e (h j lt)
]

-- The state after the delay: a line in the log, and four calls made.
abbrev pub delayed : ReqValue → ℤ → ℤ → Sys → Sys
delayed v id sid s = record s {
  log = (stdout_fileno, sync_delay id sid v.header.op_delay_ms) ∷ s.log;
  calls = s.calls + 4;
}

pub delay_lem :
    (env : Env) (v : ReqValue) (id sid : ℤ) (s : Sys)
    → is_held log_mutex s.held ≡ false
    → run (reliable env) (delay_holding v id sid) s ≡ done tt (delayed v id sid s)
unfolding run delay_holding sync_log_sync_delay
delay_lem env v id sid s free = ground arith

module _ (env : Env) (v : ReqValue) (s : Sys) (d : IsDigest env) (q : IsRequest v)
    (h : AllStored s.accounts) where
  -- The check of the password, and what comes after it.
  pub login_then :
      {A : Type 0} (f : ℤ → Prog A)
      → run
          (reliable env)
          (load_account v.header.account_id >>= λ a. authenticate v.header.password a >>= f)
          s
        ≡ run
            (reliable env)
            (f (verdict env v.header.password (orig env s.accounts v)))
            (authed (orig env s.accounts v) s)
  login_then f =
      run_then (reliable env) (load_account v.header.account_id) _ s
        (load_account_lem (reliable env) v.header.account_id s q.header_id)
      ∙ run_then (reliable env) (authenticate v.header.password (orig env s.accounts v)) f s (
          authenticate_lem env v.header.password (orig env s.accounts v) s d
            (h v.header.account_id q.header_id) q.password)

  pub create_check_lem :
      run (reliable env) (is_valid_create_request v) s
      ≡ done (create_code env s.accounts v) (authed (orig env s.accounts v) s)
  unfolding run is_valid_create_request load_account
  create_check_lem =
      login_then _
      ∙ ground (arith, q.other_id, verdict-accepts env v.header.password (orig env s.accounts v))

  pub transfer_check_lem :
      run (reliable env) (is_valid_transfer_request v) s ≡ done (transfer_checks env s.accounts v) s
  unfolding run is_valid_transfer_request load_account
  transfer_check_lem = ground (arith, q.header_id, q.other_id)

  pub balance_check_lem :
      run (reliable env) (is_valid_balance_request v) s
      ≡ done (balance_code env s.accounts v) (authed (orig env s.accounts v) s)
  unfolding run is_valid_balance_request
  balance_check_lem =
      login_then _ ∙ ground (arith, verdict-accepts env v.header.password (orig env s.accounts v))

  pub shutdown_check_lem :
      run (reliable env) (is_valid_shutdown_request v) s
      ≡ done (shutdown_code env s.accounts v) (authed (orig env s.accounts v) s)
  unfolding run is_valid_shutdown_request
  shutdown_check_lem =
      login_then _ ∙ ground (arith, verdict-accepts env v.header.password (orig env s.accounts v))
