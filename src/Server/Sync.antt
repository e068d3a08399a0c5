-- ===== src/Server/Sync.antt =====
-- server_f/sync.c: the semaphores and mutexes of the server, each use logged. A function returns 0,
-- or the code of the call that failed.
pub mod Alone
pub mod Discipline
pub mod Semaphores
use home_banking_system.Base.{ℕ, zero, suc, ltb, if◌then◌else◌}
use home_banking_system.Base.Int.{ℤ, pos, negsuc, not_zero, is_neg, not_negative}
use home_banking_system.Types.{
  SyncMechOp, op_mutex_lock, op_mutex_unlock, op_sem_init, op_sem_post, op_sem_wait, SyncRole,
  role_producer, role_consumer, max_bank_accounts,
}
use home_banking_system.Os.{
  Prog, ret, undefined, ◌>>=◌, ◌>>◌, do_call, req_queue_mutex, active_office_mutex, log_mutex,
  accounts_db_mutex, Sem, full, empty, mutex_lock, mutex_unlock, mutex_init, mutex_destroy,
  sem_init, sem_wait, sem_post, sem_destroy, sem_getvalue,
}
use home_banking_system.Server.SyncLog.{sync_log_sync_mech, sync_log_sync_mech_sem}

abbrev pub stdout_fileno : ℤ
stdout_fileno = pos 1

-- `if ((ret = p) != 0) return ret;`, and then the rest.
abbrev or_return : Prog ℤ → Prog ℤ → Prog ℤ
or_return p rest = do r ← p; if not_zero r then ret r else rest

-- `if ((ret = p) < 0) return ret;`, and then the rest.
abbrev or_return_neg : Prog ℤ → Prog ℤ → Prog ℤ
or_return_neg p rest = do r ← p; if is_neg r then ret r else rest

unfoldable pub lock_active_office_mutex : Prog ℤ
lock_active_office_mutex = do_call (mutex_lock active_office_mutex)

unfoldable pub unlock_active_office_mutex : Prog ℤ
unlock_active_office_mutex = do_call (mutex_unlock active_office_mutex)

-- The loops over the accounts' mutexes, with `k` rounds left, at round `i`.
init_accounts_mutexes : ℕ → ℕ → Prog ℤ
init_accounts_mutexes zero i = ret (pos 0)
init_accounts_mutexes (suc k) i = do
  r ← do_call (mutex_init (accounts_db_mutex i))
  if not_zero r then ret (negsuc 1) else init_accounts_mutexes k (suc i)

destroy_accounts_mutexes : ℕ → ℕ → Prog ℤ
destroy_accounts_mutexes zero i = ret (pos 0)
destroy_accounts_mutexes (suc k) i = do
  r ← do_call (mutex_destroy (accounts_db_mutex i))
  if not_zero r then ret (negsuc 1) else destroy_accounts_mutexes k (suc i)

unfoldable pub init_sync : ℕ → Prog ℤ
unfolding sync_log_sync_mech_sem init_accounts_mutexes
init_sync n_threads =
    or_return_neg
      (sync_log_sync_mech_sem stdout_fileno (pos 0) op_sem_init role_producer (pos 0) (pos 0))
      do
        r ← do_call (sem_init full 0)
        if not_zero r
            then ret (negsuc 0)
            else or_return_neg
                (sync_log_sync_mech_sem stdout_fileno (pos 0) op_sem_init role_producer (pos 0)
                  (pos n_threads))
                do
                  r ← do_call (sem_init empty n_threads)
                  if not_zero r then ret (negsuc 0) else init_accounts_mutexes max_bank_accounts 0

-- `if (p != 0) return code;`, and then the rest.
abbrev or_code : ℤ → Prog ℤ → Prog ℤ → Prog ℤ
or_code code p rest = do r ← p; if not_zero r then ret code else rest

unfoldable pub del_sync : Prog ℤ
unfolding destroy_accounts_mutexes
del_sync = or_code (negsuc 0) (do_call (sem_destroy full)) (
    or_code (negsuc 0) (do_call (sem_destroy empty)) (
      or_code (negsuc 1) (destroy_accounts_mutexes max_bank_accounts 0) (
        or_code (negsuc 1) (do_call (mutex_destroy req_queue_mutex)) (
          or_code (negsuc 1) (do_call (mutex_destroy log_mutex))
            (or_code (negsuc 1) (do_call (mutex_destroy active_office_mutex)) (ret (pos 0)))))))

-- `get_value_sem_empty` and `get_value_sem_full`: the result, and the value, 0 for a negative one.
unfoldable pub get_value_sem : Sem → Prog (ℤ × ℤ)
get_value_sem sem = do
  r ← do_call (sem_getvalue sem)
  if not_zero r.0 then ret r else ret (pos 0, not_negative r.1)

-- `wait_sem_empty` and `wait_sem_full` are this at their semaphore and role.
unfoldable pub wait_sem : Sem → SyncRole → ℤ → ℤ → Prog ℤ
unfolding get_value_sem sync_log_sync_mech_sem
wait_sem sem role id sid = do
  v ← get_value_sem sem
  if not_zero v.0
      then ret v.0
      else or_return_neg (sync_log_sync_mech_sem stdout_fileno id op_sem_wait role sid v.1)
          (do_call (sem_wait sem))

unfoldable pub post_sem : Sem → SyncRole → ℤ → ℤ → Prog ℤ
unfolding get_value_sem sync_log_sync_mech_sem
post_sem sem role id sid = or_return (do_call (sem_post sem)) do
  v ← get_value_sem sem
  if not_zero v.0
      then ret v.0
      else or_return_neg (sync_log_sync_mech_sem stdout_fileno id op_sem_post role sid v.1)
          (ret (pos 0))

unfoldable pub wait_sem_empty : ℤ → ℤ → Prog ℤ
unfolding wait_sem
wait_sem_empty = wait_sem empty role_producer

unfoldable pub post_sem_empty : ℤ → ℤ → Prog ℤ
unfolding post_sem
post_sem_empty = post_sem empty role_consumer

unfoldable pub wait_sem_full : ℤ → ℤ → Prog ℤ
unfolding wait_sem
wait_sem_full = wait_sem full role_consumer

unfoldable pub post_sem_full : ℤ → ℤ → Prog ℤ
unfolding post_sem
post_sem_full = post_sem full role_producer

-- A lock or an unlock with its line in the log; the functions below are these at their mutex.
unfoldable pub lock_logged : Prog ℤ → ℤ → SyncRole → ℤ → Prog ℤ
unfolding sync_log_sync_mech
lock_logged lock id role sid =
    or_return_neg (sync_log_sync_mech stdout_fileno id op_mutex_lock role sid) lock

unfoldable pub unlock_logged : Prog ℤ → ℤ → SyncRole → ℤ → Prog ℤ
unfolding sync_log_sync_mech
unlock_logged unlock id role sid =
    or_return unlock
      (or_return_neg (sync_log_sync_mech stdout_fileno id op_mutex_unlock role sid) (ret (pos 0)))

unfoldable pub lock_queue_mutex : ℤ → SyncRole → ℤ → Prog ℤ
unfolding lock_logged
lock_queue_mutex = lock_logged (do_call (mutex_lock req_queue_mutex))

unfoldable pub unlock_queue_mutex : ℤ → SyncRole → ℤ → Prog ℤ
unfolding unlock_logged
unlock_queue_mutex = unlock_logged (do_call (mutex_unlock req_queue_mutex))

-- The array has `MAX_BANK_ACCOUNTS` mutexes; an index outside it is undefined.
unfoldable pub lock_at : ℤ → Prog ℤ
lock_at (pos i) =
    if ltb i max_bank_accounts then do_call (mutex_lock (accounts_db_mutex i)) else undefined
lock_at (negsuc i) = undefined

unfoldable pub unlock_at : ℤ → Prog ℤ
unlock_at (pos i) =
    if ltb i max_bank_accounts then do_call (mutex_unlock (accounts_db_mutex i)) else undefined
unlock_at (negsuc i) = undefined

unfoldable pub lock_accounts_db_mutex : ℤ → SyncRole → ℤ → Prog ℤ
unfolding lock_at lock_logged
lock_accounts_db_mutex id role sid = lock_logged (lock_at sid) id role sid

unfoldable pub unlock_accounts_db_mutex : ℤ → SyncRole → ℤ → Prog ℤ
unfolding unlock_at unlock_logged
unlock_accounts_db_mutex id role sid = unlock_logged (unlock_at sid) id role sid
