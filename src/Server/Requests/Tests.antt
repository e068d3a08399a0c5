-- ===== src/Server/Requests/Tests.antt =====
-- The handlers on the sample bank: runs, and the theorems there.
use home_banking_system.Base.{ℕ, ◌≡◌, refl, arith, List, []}
use home_banking_system.Base.Int.{pos}
use home_banking_system.Types.{rc_ok, rc_no_funds}
use home_banking_system.Os.Run.{Ends, run, reliable, faulted, sized, length-sized}
use home_banking_system.Sample.{
  env, env-IsDigest, start, bank, bank-AllStored, user_pwd, pays, overdraws, creates, asks, closes,
}
use home_banking_system.Shared.Crypto.{
  write_at, sprintf_x, gen_salt, gen_hash, c_string, strcmp, read_into,
}
use home_banking_system.Shared.Accounts.{load_account, change_account, create_account, authenticate}
use home_banking_system.Shared.Accounts.Create.{authenticate-create_account}
use home_banking_system.Server.Sync.{lock_accounts_db_mutex, unlock_accounts_db_mutex}
use home_banking_system.Server.SyncLog.{sync_log_sync_delay}
use home_banking_system.Server.Requests.{
  min, max, is_valid_create_request, is_valid_transfer_request, delay_holding, create_if_valid,
  create_request, release_one, release_two, transfer_to_self, move_funds, transfer_if_valid,
  transfer_locked, transfer_to_other, transfer_request, balance_request, shutdown_request,
}
use home_banking_system.Os.{Call, Answer, mutex_unlock, load}
use home_banking_system.Shared.Accounts.Login.{IsStored}
use home_banking_system.Shared.Crypto.Salt.{rolled, SaltMade, gen_salt_lem, gen_salt_overflow}
use home_banking_system.Server.Paths.{Follows, Same}
use home_banking_system.Server.Requests.Discipline.{IsFair}
use home_banking_system.Server.Requests.Discipline.Handlers.{handlers_follow}
use home_banking_system.Server.Requests.Discipline.Transfer.{transfer_request-Follows}
use home_banking_system.Server.Requests.Errors.{WithinLimit}
use home_banking_system.Server.Requests.Total.{Conserved, transfer_request_conserves}
use home_banking_system.Server.Requests.Create.{CreateEffect, create_request_effect}
use home_banking_system.Server.Requests.Transfer.{TransferEffect, transfer_request_effect}
use home_banking_system.Server.Requests.Balance.{BalanceEffect, balance_request_effect}
use home_banking_system.Server.Requests.Shutdown.{ShutdownEffect, shutdown_request_effect}

-- Everything that a handler runs, for the tests by evaluation.
machinery : ℕ
unfolding write_at sprintf_x gen_salt gen_hash c_string strcmp read_into load_account change_account
    create_account authenticate lock_accounts_db_mutex unlock_accounts_db_mutex sync_log_sync_delay
    min max is_valid_create_request is_valid_transfer_request delay_holding create_if_valid
    create_request release_one release_two transfer_to_self move_funds transfer_if_valid
    transfer_locked transfer_to_other transfer_request
machinery = 0

transfer_request_effect_example :
    Ends
      (TransferEffect env bank pays 0)
      (run (reliable env) (transfer_request pays (pos 1) 0) start)
transfer_request_effect_example =
    transfer_request_effect env pays (pos 1) 0 start env-IsDigest (omega arith) bank-AllStored
      (λ _. omega arith) (λ _. omega arith) refl

create_request_effect_example :
    Ends (CreateEffect env bank creates) (run (reliable env) (create_request creates (pos 1)) start)
create_request_effect_example =
    create_request_effect env creates (pos 1) start env-IsDigest (omega arith) (omega arith)
      bank-AllStored refl

balance_request_effect_example :
    Ends (BalanceEffect env bank asks 0) (run (reliable env) (balance_request asks (pos 1) 0) start)
balance_request_effect_example =
    balance_request_effect env asks (pos 1) 0 start env-IsDigest (omega arith) bank-AllStored refl

shutdown_request_effect_example :
    Ends
      (ShutdownEffect env closes (pos 3) (pos 4) start)
      (run (reliable env) (shutdown_request closes (pos 1) (pos 3) (pos 4)) start)
shutdown_request_effect_example =
    shutdown_request_effect env closes (pos 1) (pos 3) (pos 4) start env-IsDigest (omega arith)
      bank-AllStored refl

authenticate-create_account_example :
    Ends
      (λ code t.
        (code ≡ rc_ok)
        × Ends (λ r _. r ≡ pos 0) (run (reliable env) (authenticate user_pwd (t.accounts 3)) t))
      (run (reliable env) (create_account user_pwd 3 500) start)
authenticate-create_account_example =
    authenticate-create_account env user_pwd 3 500 start env-IsDigest (omega arith) (omega arith)
      (bank-AllStored 3 (omega arith))

-- What the sample transfers do, by evaluation.
pays_runs :
    Ends
      (λ r t. (r ≡ (rc_ok, 15)) × ((t.accounts 1).balance ≡ 15) × ((t.accounts 2).balance ≡ 13))
      (run (reliable env) (transfer_request pays (pos 1) 0) start)
unfolding run machinery
pays_runs = (refl, refl, refl)

overdraws_runs :
    Ends
      (λ r t. (r ≡ (rc_no_funds, 25)) × ((t.accounts 1).balance ≡ 25))
      (run (reliable env) (transfer_request overdraws (pos 1) 0) start)
unfolding run machinery
overdraws_runs = (refl, refl)

creates_runs :
    Ends
      (λ code t. (code ≡ rc_ok) × ((t.accounts 3).balance ≡ 500))
      (run (reliable env) (create_request creates (pos 1)) start)
unfolding run machinery
creates_runs = (refl, refl)

-- Giving a mutex back succeeds, what is loaded is a proper account, and all else can happen.
abbrev Others : (c : Call) → Answer c → Type 0
Others (mutex_unlock m) r = r ≡ pos 0
Others (load i) a = IsStored a
Others _ r = Unit

Others-IsFair : IsFair Others
Others-IsFair = record { unlocks = λ m r e. e; loads = λ i a stored. stored }

transfer_request-Follows_example : Follows Others (Same []) [] (transfer_request pays (pos 1) 0)
transfer_request-Follows_example =
    transfer_request-Follows Others pays (pos 1) 0 Others-IsFair (omega arith)

handlers_follow_example :
    Follows Others (Same []) [] (create_request creates (pos 1))
    × Follows Others (Same []) [] (balance_request asks (pos 1) 0)
    × Follows Others (Same []) [] (shutdown_request asks (pos 1) (pos 3) (pos 4))
handlers_follow_example =
    handlers_follow Others creates asks (pos 1) (pos 3) (pos 4) 0 Others-IsFair (omega arith)
      (omega arith) (omega arith)

gen_salt_overflow_example : run env (gen_salt (sized 65 []) 65 64) start ≡ faulted (rolled 15 start)
gen_salt_overflow_example = gen_salt_overflow env (sized 65 []) start (length-sized 65 [])

gen_salt_lem_example : (r : List ℕ) × SaltMade env (sized 67 []) start r
gen_salt_lem_example = gen_salt_lem env (sized 67 []) start (omega (arith, length-sized 67 []))

bank-WithinLimit : (i : ℕ) → WithinLimit (bank i)
bank-WithinLimit i in_use = ground arith

transfer_request_conserves_example :
    Ends (Conserved bank) (run (reliable env) (transfer_request pays (pos 1) 0) start)
transfer_request_conserves_example =
    transfer_request_conserves env pays (pos 1) 0 start env-IsDigest (omega arith) bank-AllStored
      bank-WithinLimit refl
