-- ===== src/Server/Requests/Errors.antt =====
-- The rule of shared/types.h: where a request has more than one error, the code returned is the
-- first of the list. The errors of each request, as conditions on the accounts.
use home_banking_system.Base.{
  ℕ, ◌+◌, ◌%◌, ◌^◌, ◌≤◌, ◌<◌, ◌≡◌, refl, ◌≢◌, ◌⊎◌, Bool, true, false, not, ◌||◌, arith, ltb, ◌==◌,
  if◌then◌else◌,
}
use home_banking_system.Types.{
  Account, ReqValue, create_of, transfer_of, RetCode, rc_ok, rc_login_fail, rc_op_nallow,
  rc_id_in_use, rc_id_not_found, rc_same_id, rc_srv_down, rc_srv_timeout, rc_usr_down, rc_other,
  min_balance, rc_no_funds, rc_too_high, code_of, admin_account_id, empty_account_id, max_balance,
}
use home_banking_system.Os.Run.{Env}
use home_banking_system.Shared.Accounts.Login.{accepts, accepts-in_use}

-- `c` is `RC_OK` and no error applies, or an error that applies and none before it does.
abbrev pub IsFirstError : (RetCode → Bool) → RetCode → Type 0
IsFirstError applies c =
    ((c ≡ rc_ok) × ((e : RetCode) → applies e ≡ false))
    ⊎ ((applies c ≡ true) × ((e : RetCode) → code_of e < code_of c → applies e ≡ false))

-- The balance of an account in use is not above the limit.
abbrev pub WithinLimit : Account → Type 0
WithinLimit a = a.account_id ≢ empty_account_id → a.balance ≤ max_balance

module _ (env : Env) (f : ℕ → Account) (v : ReqValue) where
  abbrev pub orig : Account
  orig = f v.header.account_id

  abbrev pub logged_in : Bool
  logged_in = accepts env v.header.password orig

  abbrev pub by_admin : Bool
  by_admin = v.header.account_id == admin_account_id

  abbrev pub create_errors : RetCode → Bool
  create_errors rc_login_fail = not logged_in
  create_errors rc_op_nallow = not by_admin
  create_errors rc_id_in_use = not ((f (create_of v).account_id).account_id == empty_account_id)
  create_errors _ = false

  abbrev pub transfer_errors : RetCode → Bool
  transfer_errors rc_login_fail = not logged_in
  transfer_errors rc_op_nallow = by_admin || ((transfer_of v).account_id == admin_account_id)
  transfer_errors rc_id_not_found = (f (transfer_of v).account_id).account_id == empty_account_id
  transfer_errors rc_same_id = v.header.account_id == (transfer_of v).account_id
  transfer_errors rc_no_funds = ltb orig.balance (transfer_of v).amount
  transfer_errors rc_too_high =
      ltb max_balance ((f (transfer_of v).account_id).balance + (transfer_of v).amount)
  transfer_errors _ = false

  -- The same with the condition that shared/types.h gives for `RC_NO_FUNDS`: a final balance below
  -- `MIN_BALANCE`.
  abbrev pub documented_errors : RetCode → Bool
  documented_errors rc_no_funds = ltb orig.balance ((transfer_of v).amount + min_balance)
  documented_errors c = transfer_errors c

  pub documented-eq :
      orig.balance ≢ (transfer_of v).amount
      → (c : RetCode) → transfer_errors c ≡ documented_errors c
  documented-eq differs rc_no_funds = ground arith
  documented-eq differs rc_ok = refl
  documented-eq differs rc_srv_down = refl
  documented-eq differs rc_srv_timeout = refl
  documented-eq differs rc_usr_down = refl
  documented-eq differs rc_login_fail = refl
  documented-eq differs rc_op_nallow = refl
  documented-eq differs rc_id_in_use = refl
  documented-eq differs rc_id_not_found = refl
  documented-eq differs rc_same_id = refl
  documented-eq differs rc_too_high = refl
  documented-eq differs rc_other = refl

  abbrev pub balance_errors : RetCode → Bool
  balance_errors rc_login_fail = not logged_in
  balance_errors rc_op_nallow = by_admin
  balance_errors _ = false

  abbrev pub shutdown_errors : RetCode → Bool
  shutdown_errors rc_login_fail = not logged_in
  shutdown_errors rc_op_nallow = not by_admin
  shutdown_errors _ = false

  -- The code's own order of tests.
  abbrev pub create_code : RetCode
  create_code =
      if logged_in
      then if by_admin
        then if (f (create_of v).account_id).account_id == empty_account_id
          then rc_ok
          else rc_id_in_use
        else rc_op_nallow
      else rc_login_fail

  pub create_code-first : IsFirstError create_errors create_code
  create_code-first = ground arith

  abbrev pub transfer_checks : RetCode
  transfer_checks =
      let dest = f (transfer_of v).account_id in
      let amount = (transfer_of v).amount in
      if by_admin || ((transfer_of v).account_id == admin_account_id)
      then rc_op_nallow
      else if dest.account_id == empty_account_id
      then rc_id_not_found
      else if v.header.account_id == (transfer_of v).account_id
      then rc_same_id
      else if ltb orig.balance amount
      then rc_no_funds
      else if ltb max_balance ((dest.balance + amount) % 2 ^ 32)
      then rc_too_high
      else rc_ok

  abbrev pub transfer_code : RetCode
  transfer_code = if logged_in then transfer_checks else rc_login_fail

  -- The sum is tested after it may have wrapped round; it has not, if no balance is above the limit.
  pub transfer_code-first :
      WithinLimit orig
      → WithinLimit (f (transfer_of v).account_id)
      → IsFirstError transfer_errors transfer_code
  transfer_code-first ho hd = ground (arith, accepts-in_use env v.header.password orig, ho, hd)

  abbrev pub balance_code : RetCode
  balance_code = if logged_in then if by_admin then rc_op_nallow else rc_ok else rc_login_fail

  pub balance_code-first : IsFirstError balance_errors balance_code
  balance_code-first = ground arith

  abbrev pub shutdown_code : RetCode
  shutdown_code = if logged_in then if by_admin then rc_ok else rc_op_nallow else rc_login_fail

  pub shutdown_code-first : IsFirstError shutdown_errors shutdown_code
  shutdown_code-first = ground arith
