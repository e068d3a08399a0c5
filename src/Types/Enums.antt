-- ===== src/Types/Enums.antt =====
-- The enumerations of shared/types.h.
use home_banking_system.Base.{ℕ}

-- `enum op_type`. A request is read from a pipe, so its type may be a number that names none of
-- the operations: `other`.
pub data OpType : Type 0 where
  create_account balance transfer shutdown : OpType
  other : ℕ → OpType

-- `enum ret_code`
pub data RetCode : Type 0 where
  rc_ok rc_srv_down rc_srv_timeout rc_usr_down rc_login_fail rc_op_nallow rc_id_in_use : RetCode
  rc_id_not_found rc_same_id rc_no_funds rc_too_high rc_other : RetCode

-- The number that C gives a return code, its place in the list.
abbrev pub code_of : RetCode → ℕ
code_of rc_ok = 0
code_of rc_srv_down = 1
code_of rc_srv_timeout = 2
code_of rc_usr_down = 3
code_of rc_login_fail = 4
code_of rc_op_nallow = 5
code_of rc_id_in_use = 6
code_of rc_id_not_found = 7
code_of rc_same_id = 8
code_of rc_no_funds = 9
code_of rc_too_high = 10
code_of rc_other = 11

-- `enum sync_mech_op_type`
pub data SyncMechOp : Type 0 where
  op_mutex_lock op_mutex_unlock op_mutex_trylock op_cond_signal op_cond_wait : SyncMechOp
  op_sem_init op_sem_post op_sem_wait : SyncMechOp

-- `enum sync_mech_role`
pub data SyncRole : Type 0 where
  role_producer role_consumer role_account : SyncRole
