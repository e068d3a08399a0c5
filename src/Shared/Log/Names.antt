-- ===== src/Shared/Log/Names.antt =====
-- The names that shared/log.c prints for operations, codes, and uses of mutexes and semaphores.
use home_banking_system.Base.{ℕ, Option, none, some, List, [], ◌∷◌}
use home_banking_system.Types.{
  OpType, create_account, balance, transfer, shutdown, other, RetCode, rc_ok, rc_srv_down,
  rc_srv_timeout, rc_usr_down, rc_login_fail, rc_op_nallow, rc_id_in_use, rc_id_not_found,
  rc_same_id, rc_no_funds, rc_too_high, rc_other, SyncMechOp, op_mutex_lock, op_mutex_unlock,
  op_mutex_trylock, op_cond_signal, op_cond_wait, op_sem_init, op_sem_post, op_sem_wait, SyncRole,
  role_producer, role_consumer, role_account,
}

-- The array has no name for another type.
unfoldable pub op_type_str : OpType → Option (List ℕ)
op_type_str create_account = some (b'C' ∷ b'R' ∷ b'E' ∷ b'A' ∷ b'T' ∷ b'E' ∷ [])
op_type_str balance = some (b'B' ∷ b'A' ∷ b'L' ∷ b'A' ∷ b'N' ∷ b'C' ∷ b'E' ∷ [])
op_type_str transfer = some (b'T' ∷ b'R' ∷ b'A' ∷ b'N' ∷ b'S' ∷ b'F' ∷ b'E' ∷ b'R' ∷ [])
op_type_str shutdown = some (b'S' ∷ b'H' ∷ b'U' ∷ b'T' ∷ b'D' ∷ b'O' ∷ b'W' ∷ b'N' ∷ [])
op_type_str (other n) = none

unfoldable pub rc_str : RetCode → List ℕ
rc_str rc_ok = b'O' ∷ b'K' ∷ []
rc_str rc_srv_down = b'S' ∷ b'R' ∷ b'V' ∷ b'_' ∷ b'D' ∷ b'O' ∷ b'W' ∷ b'N' ∷ []
rc_str rc_srv_timeout =
    b'S' ∷ b'R' ∷ b'V' ∷ b'_' ∷ b'T' ∷ b'I' ∷ b'M' ∷ b'E' ∷ b'O' ∷ b'U' ∷ b'T' ∷ []
rc_str rc_usr_down = b'U' ∷ b'S' ∷ b'R' ∷ b'_' ∷ b'D' ∷ b'O' ∷ b'W' ∷ b'N' ∷ []
rc_str rc_login_fail = b'L' ∷ b'O' ∷ b'G' ∷ b'I' ∷ b'N' ∷ b'_' ∷ b'F' ∷ b'A' ∷ b'I' ∷ b'L' ∷ []
rc_str rc_op_nallow = b'O' ∷ b'P' ∷ b'_' ∷ b'N' ∷ b'A' ∷ b'L' ∷ b'L' ∷ b'O' ∷ b'W' ∷ []
rc_str rc_id_in_use = b'I' ∷ b'D' ∷ b'_' ∷ b'I' ∷ b'N' ∷ b'_' ∷ b'U' ∷ b'S' ∷ b'E' ∷ []
rc_str rc_id_not_found =
    b'I' ∷ b'D' ∷ b'_' ∷ b'N' ∷ b'O' ∷ b'T' ∷ b'_' ∷ b'F' ∷ b'O' ∷ b'U' ∷ b'N' ∷ b'D' ∷ []
rc_str rc_same_id = b'S' ∷ b'A' ∷ b'M' ∷ b'E' ∷ b'_' ∷ b'I' ∷ b'D' ∷ []
rc_str rc_no_funds = b'N' ∷ b'O' ∷ b'_' ∷ b'F' ∷ b'U' ∷ b'N' ∷ b'D' ∷ b'S' ∷ []
rc_str rc_too_high = b'T' ∷ b'O' ∷ b'O' ∷ b'_' ∷ b'H' ∷ b'I' ∷ b'G' ∷ b'H' ∷ []
rc_str rc_other = b'O' ∷ b'T' ∷ b'H' ∷ b'E' ∷ b'R' ∷ []

unfoldable pub sync_mech_str : SyncMechOp → List ℕ
sync_mech_str op_mutex_lock =
    b'M' ∷ b'U' ∷ b'T' ∷ b'E' ∷ b'X' ∷ b'_' ∷ b'L' ∷ b'O' ∷ b'C' ∷ b'K' ∷ []
sync_mech_str op_mutex_trylock =
    b'M' ∷ b'U' ∷ b'T' ∷ b'E' ∷ b'X' ∷ b'_' ∷ b'T' ∷ b'R' ∷ b'Y' ∷ b'L' ∷ b'O' ∷ b'C' ∷ b'K' ∷ []
sync_mech_str op_mutex_unlock =
    b'M' ∷ b'U' ∷ b'T' ∷ b'E' ∷ b'X' ∷ b'_' ∷ b'U' ∷ b'N' ∷ b'L' ∷ b'O' ∷ b'C' ∷ b'K' ∷ []
sync_mech_str op_cond_signal =
    b'C' ∷ b'O' ∷ b'N' ∷ b'D' ∷ b'_' ∷ b'S' ∷ b'I' ∷ b'G' ∷ b'N' ∷ b'A' ∷ b'L' ∷ []
sync_mech_str op_cond_wait = b'C' ∷ b'O' ∷ b'N' ∷ b'D' ∷ b'_' ∷ b'W' ∷ b'A' ∷ b'I' ∷ b'T' ∷ []
sync_mech_str op_sem_init = b'S' ∷ b'E' ∷ b'M' ∷ b'_' ∷ b'I' ∷ b'N' ∷ b'I' ∷ b'T' ∷ []
sync_mech_str op_sem_post = b'S' ∷ b'E' ∷ b'M' ∷ b'_' ∷ b'P' ∷ b'O' ∷ b'S' ∷ b'T' ∷ []
sync_mech_str op_sem_wait = b'S' ∷ b'E' ∷ b'M' ∷ b'_' ∷ b'W' ∷ b'A' ∷ b'I' ∷ b'T' ∷ []

-- `SYNC_ROLE_STR[role][0]`
unfoldable pub role_letter : SyncRole → ℕ
role_letter role_account = b'A'
role_letter role_consumer = b'C'
role_letter role_producer = b'P'
