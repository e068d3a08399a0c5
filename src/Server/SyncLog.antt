-- ===== src/Server/SyncLog.antt =====
-- server_f/sync_log.c: the functions of shared/log.c under the log's mutex.
use home_banking_system.Base.{ℕ, if◌then◌else◌}
use home_banking_system.Base.Int.{ℤ, negsuc, not_zero}
use home_banking_system.Types.{Account, TlvRequest, TlvReply, SyncMechOp, SyncRole}
use home_banking_system.Os.{Prog, ret, ◌>>=◌, do_call, mutex_lock, mutex_unlock, log_mutex}
use home_banking_system.Shared.Log.{
  log_request, log_reply, log_bank_office_open, log_bank_office_close, log_account_creation,
  log_sync_mech, log_sync_mech_sem, log_delay, log_sync_delay,
}

-- `lock_log_mutex` and `unlock_log_mutex` of server_f/sync.c, which stand here because the other
-- functions of that file log through these.
unfoldable pub lock_log_mutex : Prog ℤ
lock_log_mutex = do_call (mutex_lock log_mutex)

unfoldable pub unlock_log_mutex : Prog ℤ
unlock_log_mutex = do_call (mutex_unlock log_mutex)

-- The body that the nine functions share.
unfoldable pub under_log_mutex : Prog ℤ → Prog ℤ
unfolding lock_log_mutex unlock_log_mutex
under_log_mutex log_it = do
  r ← lock_log_mutex
  if not_zero r
      then ret (negsuc 0)
      else do n ← log_it; r ← unlock_log_mutex; if not_zero r then ret (negsuc 0) else ret n

unfoldable pub sync_log_request : ℤ → ℤ → TlvRequest → Prog ℤ
unfolding under_log_mutex log_request
sync_log_request fd id r = under_log_mutex (log_request fd id r)

unfoldable pub sync_log_reply : ℤ → ℤ → TlvReply → Prog ℤ
unfolding under_log_mutex log_reply
sync_log_reply fd id r = under_log_mutex (log_reply fd id r)

unfoldable pub sync_log_bank_office_open : ℤ → ℤ → ℤ → Prog ℤ
unfolding under_log_mutex log_bank_office_open
sync_log_bank_office_open fd id tid = under_log_mutex (log_bank_office_open fd id tid)

unfoldable pub sync_log_bank_office_close : ℤ → ℤ → ℤ → Prog ℤ
unfolding under_log_mutex log_bank_office_close
sync_log_bank_office_close fd id tid = under_log_mutex (log_bank_office_close fd id tid)

unfoldable pub sync_log_account_creation : ℤ → ℤ → Account → Prog ℤ
unfolding under_log_mutex log_account_creation
sync_log_account_creation fd id a = under_log_mutex (log_account_creation fd id a)

unfoldable pub sync_log_sync_mech : ℤ → ℤ → SyncMechOp → SyncRole → ℤ → Prog ℤ
unfolding under_log_mutex log_sync_mech
sync_log_sync_mech fd id smo role sid = under_log_mutex (log_sync_mech fd id smo role sid)

unfoldable pub sync_log_sync_mech_sem : ℤ → ℤ → SyncMechOp → SyncRole → ℤ → ℤ → Prog ℤ
unfolding under_log_mutex log_sync_mech_sem
sync_log_sync_mech_sem fd id smo role sid val =
    under_log_mutex (log_sync_mech_sem fd id smo role sid val)

unfoldable pub sync_log_delay : ℤ → ℤ → ℕ → Prog ℤ
unfolding under_log_mutex log_delay
sync_log_delay fd id delay_ms = under_log_mutex (log_delay fd id delay_ms)

unfoldable pub sync_log_sync_delay : ℤ → ℤ → ℤ → ℕ → Prog ℤ
unfolding under_log_mutex log_sync_delay
sync_log_sync_delay fd id sid delay_ms = under_log_mutex (log_sync_delay fd id sid delay_ms)
