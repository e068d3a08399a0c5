-- ===== src/Server/Requests.antt =====
-- server_f/requests.c: the handlers that a bank office runs for a request. `id` is the office's
-- number. What a handler writes through `final_balance` it returns beside its code.
pub mod Checks
pub mod Create
pub mod Balance
mod Tests
pub mod Errors
pub mod Shutdown
pub mod Discipline
pub mod Total
pub mod Release
pub mod Transfer
use home_banking_system.Base.{
  ℕ, ◌+◌, ◌-◌, ◌*◌, ◌%◌, ◌^◌, ◌≡◌, arith, Bool, true, false, ◌||◌, List, ltb, ◌==◌, if◌then◌else◌,
}
use home_banking_system.Base.Int.{ℤ, pos, negsuc, not_zero, ltb_ℤ, eqb_ℤ, to_int}
use home_banking_system.Types.{
  Account, ReqValue, create_of, transfer_of, RetCode, rc_ok, rc_login_fail, rc_op_nallow,
  rc_id_in_use, rc_id_not_found, rc_same_id, rc_no_funds, rc_too_high, rc_other, role_account,
  admin_account_id, empty_account_id, max_balance,
}
use home_banking_system.Os.{
  Prog, ret, ◌>>=◌, ◌>>◌, do_call, usleep, store_balcony_open, close, fchmod,
}
use home_banking_system.Shared.Accounts.{load_account, change_account, authenticate, create_account}
use home_banking_system.Server.Sync.{
  stdout_fileno, lock_accounts_db_mutex, unlock_accounts_db_mutex,
}
use home_banking_system.Server.SyncLog.{sync_log_sync_delay, sync_log_delay}

abbrev pub is_ok : RetCode → Bool
is_ok rc_ok = true
is_ok _ = false

pub is_ok-eq : (c : RetCode) → is_ok c ≡ true → c ≡ rc_ok
is_ok-eq c e = ground arith

-- `min` and `max` of shared/utilities.c
unfoldable pub min : ℤ → ℤ → ℤ
min a b = if ltb_ℤ a b then a else b

unfoldable pub max : ℤ → ℤ → ℤ
max a b = if ltb_ℤ b a then a else b

unfoldable pub is_valid_create_request : ReqValue → Prog RetCode
is_valid_create_request v = do
  let orig_id = v.header.account_id
  let create_id = (create_of v).account_id
  orig ← load_account orig_id
  differs ← authenticate v.header.password orig
  if not_zero differs
      then ret rc_login_fail
      else if orig_id == admin_account_id
      then (do
        target ← load_account create_id
        if target.account_id == empty_account_id then ret rc_ok else ret rc_id_in_use)
      else ret rc_op_nallow

unfoldable pub is_valid_transfer_request : ReqValue → Prog RetCode
is_valid_transfer_request v =
    let orig_id = v.header.account_id in
    let dest_id = (transfer_of v).account_id in
    let amount = (transfer_of v).amount in
    if (orig_id == admin_account_id) || (dest_id == admin_account_id) then ret rc_op_nallow else do
      dest ← load_account dest_id
      if dest.account_id == empty_account_id
          then ret rc_id_not_found
          else if orig_id == dest_id
          then ret rc_same_id
          else do
            orig ← load_account orig_id
            if ltb orig.balance amount then ret rc_no_funds else do
              dest ← load_account dest_id
              if ltb max_balance ((dest.balance + amount) % 2 ^ 32)
                  then ret rc_too_high
                  else ret rc_ok

unfoldable pub is_valid_balance_request : ReqValue → Prog RetCode
is_valid_balance_request v = do
  let orig_id = v.header.account_id
  orig ← load_account orig_id
  differs ← authenticate v.header.password orig
  if not_zero differs
      then ret rc_login_fail
      else if orig_id == admin_account_id
      then ret rc_op_nallow
      else ret rc_ok

unfoldable pub is_valid_shutdown_request : ReqValue → Prog RetCode
is_valid_shutdown_request v = do
  let orig_id = v.header.account_id
  orig ← load_account orig_id
  differs ← authenticate v.header.password orig
  if not_zero differs
      then ret rc_login_fail
      else if orig_id == admin_account_id
      then ret rc_ok
      else ret rc_op_nallow

-- `usleep(op_delay_ms * 1000)` and the line about it.
unfoldable pub delay_holding : ReqValue → ℤ → ℤ → Prog (Unit {0})
delay_holding v id sid = do
  do_call (usleep ((v.header.op_delay_ms * 1000) % 2 ^ 32))
  sync_log_sync_delay stdout_fileno id sid v.header.op_delay_ms
  ret tt

-- Checks the request, and creates the account if it is valid.
pub create_if_valid : ReqValue → Prog RetCode
create_if_valid v = do
  let c = create_of v
  code ← is_valid_create_request v
  if is_ok code then create_account c.password c.account_id c.balance else ret code

unfoldable pub create_request : ReqValue → ℤ → Prog RetCode
create_request v id = do
  let create_id = to_int (create_of v).account_id
  r ← lock_accounts_db_mutex id role_account create_id
  if not_zero r then ret rc_other else do
    delay_holding v id create_id
    code ← create_if_valid v
    r ← unlock_accounts_db_mutex id role_account create_id
    if not_zero r then ret rc_other else ret code

-- The early returns of `transfer_request` that hold one mutex, and those that hold two.
pub release_one : ℤ → ℤ → RetCode × ℕ → Prog (RetCode × ℕ)
release_one id first result = do
  r ← unlock_accounts_db_mutex id role_account first
  if not_zero r then ret (rc_other, result.1) else ret result

pub release_two : ℤ → ℤ → ℤ → RetCode × ℕ → Prog (RetCode × ℕ)
release_two id first second result = do
  r ← unlock_accounts_db_mutex id role_account second
  if not_zero r
      then (do unlock_accounts_db_mutex id role_account first; ret (rc_other, result.1))
      else release_one id first result

-- The branch for equal numbers.
pub transfer_to_self : ReqValue → ℤ → ℤ → ℕ → Prog (RetCode × ℕ)
transfer_to_self v id first final_balance = do
  let orig_id = v.header.account_id
  orig ← load_account orig_id
  differs ← authenticate v.header.password orig
  if not_zero differs then release_one id first (rc_login_fail, final_balance) else do
    orig ← load_account orig_id
    code ← is_valid_transfer_request v
    release_one id first (code, orig.balance)

-- The two updates, on `uint32_t`.
pub move_funds : ReqValue → Prog (Unit {0})
move_funds v = do
  let amount = (transfer_of v).amount
  change_account v.header.account_id
      (λ a. record a { balance = (a.balance + 2 ^ 32 - amount) % 2 ^ 32 })
  change_account (transfer_of v).account_id
      (λ a. record a { balance = (a.balance + amount) % 2 ^ 32 })

-- What is done under both mutexes, once the password is right.
pub transfer_if_valid : ReqValue → Prog (RetCode × ℕ)
transfer_if_valid v = do
  code ← is_valid_transfer_request v
  if is_ok code then move_funds v else ret tt
  orig ← load_account v.header.account_id
  ret (code, orig.balance)

pub transfer_locked : ReqValue → ℤ → ℤ → ℤ → ℕ → Prog (RetCode × ℕ)
transfer_locked v id first second final_balance = do
  orig ← load_account v.header.account_id
  differs ← authenticate v.header.password orig
  if not_zero differs
      then release_two id first second (rc_login_fail, final_balance)
      else do result ← transfer_if_valid v; release_two id first second result

-- The branch for two numbers, which takes the second mutex.
pub transfer_to_other : ReqValue → ℤ → ℤ → ℤ → ℕ → Prog (RetCode × ℕ)
transfer_to_other v id first second final_balance = do
  r ← lock_accounts_db_mutex id role_account second
  if not_zero r
      then (do unlock_accounts_db_mutex id role_account first; ret (rc_other, final_balance))
      else do
        delay_holding v id (to_int (transfer_of v).account_id)
        transfer_locked v id first second final_balance

unfoldable pub transfer_request : ReqValue → ℤ → ℕ → Prog (RetCode × ℕ)
transfer_request v id final_balance = do
  let orig_id = to_int v.header.account_id
  let dest_id = to_int (transfer_of v).account_id
  let first = min orig_id dest_id
  let second = max orig_id dest_id
  r ← lock_accounts_db_mutex id role_account first
  if not_zero r then ret (rc_other, final_balance) else do
    delay_holding v id orig_id
    if eqb_ℤ first second
        then transfer_to_self v id first final_balance
        else transfer_to_other v id first second final_balance

-- The balance, if the request is valid.
pub balance_if_valid : ReqValue → ℕ → Prog (RetCode × ℕ)
balance_if_valid v final_balance = do
  code ← is_valid_balance_request v
  if is_ok code
      then (do orig ← load_account v.header.account_id; ret (code, orig.balance))
      else ret (code, final_balance)

unfoldable pub balance_request : ReqValue → ℤ → ℕ → Prog (RetCode × ℕ)
balance_request v id final_balance = do
  let orig_id = to_int v.header.account_id
  r ← lock_accounts_db_mutex id role_account orig_id
  if not_zero r then ret (rc_other, final_balance) else do
    delay_holding v id orig_id
    result ← balance_if_valid v final_balance
    release_one id orig_id result

unfoldable pub shutdown_request : ReqValue → ℤ → ℤ → ℤ → Prog RetCode
shutdown_request v id secure_srv dummy_descriptor = do
  do_call (usleep ((v.header.op_delay_ms * 1000) % 2 ^ 32))
  sync_log_delay stdout_fileno id v.header.op_delay_ms
  code ← is_valid_shutdown_request v
  if is_ok code
      then (do
        do_call (store_balcony_open false)
        r ← do_call (close dummy_descriptor)
        if not_zero r then ret rc_other else do
          r ← do_call (fchmod secure_srv 0o444)
          if not_zero r then ret rc_other else ret rc_ok)
      else ret code
