-- ===== src/Shared/Log.antt =====
-- shared/log.c. Each function formats one line and hands it to `write`; a call keeps the line as the
-- values that it shows. Log/Text has the text made of them.
pub mod Names
pub mod Fields
pub mod Text
pub mod Whole
pub mod Lines
pub mod Columns
mod Tests
use home_banking_system.Base.{ℕ, true, false}
use home_banking_system.Base.Int.{ℤ, negsuc}
use home_banking_system.Types.{
  Account, TlvRequest, TlvReply, OpType, create_account, balance, transfer, shutdown, other,
  SyncMechOp, SyncRole,
}
use home_banking_system.Os.{
  Prog, ret, do_call, print, request, reply, office, account_creation, sync_mech, sync_mech_sem,
  delay, sync_delay,
}

-- The `switch` on the type: a type that is no operation is not printed.
unfoldable pub for_known_type : OpType → Prog ℤ → Prog ℤ
for_known_type create_account p = p
for_known_type balance p = p
for_known_type transfer p = p
for_known_type shutdown p = p
for_known_type (other n) p = ret (negsuc 1)

unfoldable pub log_request : ℤ → ℤ → TlvRequest → Prog ℤ
unfolding for_known_type
log_request fd id r = for_known_type r.type (do_call (print fd (request id r)))

unfoldable pub log_reply : ℤ → ℤ → TlvReply → Prog ℤ
unfolding for_known_type
log_reply fd id r = for_known_type r.type (do_call (print fd (reply id r)))

unfoldable pub log_bank_office_open : ℤ → ℤ → ℤ → Prog ℤ
log_bank_office_open fd id tid = do_call (print fd (office id tid true))

unfoldable pub log_bank_office_close : ℤ → ℤ → ℤ → Prog ℤ
log_bank_office_close fd id tid = do_call (print fd (office id tid false))

unfoldable pub log_account_creation : ℤ → ℤ → Account → Prog ℤ
log_account_creation fd id a = do_call (print fd (account_creation id a))

unfoldable pub log_sync_mech : ℤ → ℤ → SyncMechOp → SyncRole → ℤ → Prog ℤ
log_sync_mech fd id smo role sid = do_call (print fd (sync_mech id smo role sid))

unfoldable pub log_sync_mech_sem : ℤ → ℤ → SyncMechOp → SyncRole → ℤ → ℤ → Prog ℤ
log_sync_mech_sem fd id smo role sid val = do_call (print fd (sync_mech_sem id smo role sid val))

unfoldable pub log_delay : ℤ → ℤ → ℕ → Prog ℤ
log_delay fd id delay_ms = do_call (print fd (delay id delay_ms))

unfoldable pub log_sync_delay : ℤ → ℤ → ℤ → ℕ → Prog ℤ
log_sync_delay fd id sid delay_ms = do_call (print fd (sync_delay id sid delay_ms))
