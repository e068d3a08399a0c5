-- ===== src/Shared/Accounts.antt =====
-- shared/account_utilities.c
pub mod Create
pub mod Login
use home_banking_system.Base.{
  ℕ, ◌+◌, ◌<◌, Bool, true, false, ◌&&◌, not, List, ltb, leb, ◌==◌, if◌then◌else◌, length,
}
use home_banking_system.Base.Int.{ℤ, pos, negsuc, not_zero, ltb_ℤ}
use home_banking_system.Types.{
  Account, RetCode, rc_ok, rc_other, rc_id_not_found, code_of, max_bank_accounts, empty_account_id,
  min_password_len, max_password_len, salt_len, hash_len,
}
use home_banking_system.Os.{Prog, ret, undefined, ◌>>=◌, ◌>>◌, do_call, load, store, uninit}
use home_banking_system.Shared.Crypto.{gen_salt, gen_hash, strcmp, c_string}

unfoldable pub valid_account_id : ℤ → Bool
valid_account_id (pos n) = ltb n max_bank_accounts
valid_account_id (negsuc n) = false

unfoldable pub valid_user_account_id : ℤ → Bool
valid_user_account_id i = valid_account_id i && not_zero i

unfoldable pub valid_pwd : List ℕ → Bool
valid_pwd pwd = leb min_password_len (length pwd) && leb (length pwd) max_password_len

-- `accounts_database[i]`, an array of `MAX_BANK_ACCOUNTS` pointers; outside it is undefined.
unfoldable pub load_account : ℕ → Prog Account
load_account i = if ltb i max_bank_accounts then do_call (load i) else undefined

-- A write to fields of `*accounts_database[i]`, given as what they become.
unfoldable pub change_account : ℕ → (Account → Account) → Prog (Unit {0})
change_account i change = do a ← load_account i; do_call (store i (change a))

-- 0 if the password is the account's. The result of `gen_hash` is not looked at: where it fails,
-- the local array is compared as it is, at most up to the NUL of the account's own hash, so within its
-- 65 bytes.
unfoldable pub authenticate : List ℕ → Account → Prog ℤ
authenticate pwd a =
    if a.account_id == empty_account_id then ret (pos (code_of rc_id_not_found)) else do
      array ← do_call (uninit (hash_len + 1))
      made ← gen_hash pwd a.salt array
      ret (strcmp (c_string made.1) (c_string a.hash))

unfoldable pub create_account : List ℕ → ℕ → ℕ → Prog RetCode
create_account pwd account_id balance = do
  a ← load_account account_id
  made ← gen_salt a.salt (salt_len + 1) salt_len
  change_account account_id (λ a. record a { salt = made.1 })
  if not_zero made.0 then ret rc_other else do
    hashed ← gen_hash pwd made.1 a.hash
    change_account account_id (λ a. record a { hash = hashed.1 })
    if not_zero hashed.0 then ret rc_other else do
      change_account account_id (λ a. record a { account_id = account_id })
      change_account account_id (λ a. record a { balance = balance })
      ret rc_ok
