-- ===== src/Server/Sync/Alone.antt =====
-- The account mutexes of server_f/sync.c, locked and unlocked when no call fails.
use home_banking_system.Base.{ℕ, ◌+◌, ◌<◌, ◌≡◌, false, List, ◌∷◌, arith}
use home_banking_system.Base.Int.{ℤ, pos}
use home_banking_system.Types.{
  SyncRole, SyncMechOp, max_bank_accounts, op_mutex_lock, op_mutex_unlock,
}
use home_banking_system.Os.{Mutex, accounts_db_mutex, log_mutex, sync_mech}
use home_banking_system.Os.Run.{Env, Sys, done, run, reliable, is_held}
use home_banking_system.Server.Sync.{
  stdout_fileno, lock_accounts_db_mutex, unlock_accounts_db_mutex,
}

-- The state after a lock or an unlock: the mutexes held, a line in the log, four calls made.
abbrev pub switched : SyncMechOp → ℤ → SyncRole → ℕ → List Mutex → Sys → Sys
switched op id role i held s = record s {
  held = held;
  log = (stdout_fileno, sync_mech id op role (pos i)) ∷ s.log;
  calls = s.calls + 4;
}

pub lock_lem :
    (env : Env) (id : ℤ) (role : SyncRole) (i : ℕ) (s : Sys)
    → i < max_bank_accounts
    → is_held log_mutex s.held ≡ false
    → is_held (accounts_db_mutex i) s.held ≡ false
    → run (reliable env) (lock_accounts_db_mutex id role (pos i)) s
      ≡ done (pos 0) (switched op_mutex_lock id role i (accounts_db_mutex i ∷ s.held) s)
unfolding run lock_accounts_db_mutex
lock_lem env id role i s lt free_log free = ground arith

pub unlock_lem :
    (env : Env) (id : ℤ) (role : SyncRole) (i : ℕ) (rest : List Mutex) (s : Sys)
    → i < max_bank_accounts
    → s.held ≡ accounts_db_mutex i ∷ rest
    → is_held log_mutex rest ≡ false
    → run (reliable env) (unlock_accounts_db_mutex id role (pos i)) s
      ≡ done (pos 0) (switched op_mutex_unlock id role i rest s)
unfolding run unlock_accounts_db_mutex
unlock_lem env id role i rest s lt holds free_log = ground arith
