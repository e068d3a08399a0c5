-- ===== src/Server/Paths/Accounts.antt =====
-- shared/account_utilities.c on every path.
use home_banking_system.Base.{
  ℕ, ◌+◌, ◌≤◌, ◌<◌, ◌≡◌, refl, ◌∙◌, true, lt→ltb, List, arith, ◌==◌, length, if◌then◌else◌,
  Bool-cases, inl, inr,
}
use home_banking_system.Base.Int.{ℤ, not_zero}
use home_banking_system.Types.{
  Account, RetCode, rc_ok, rc_other, max_bank_accounts, empty_account_id, max_password_len,
  salt_len, hash_len,
}
use home_banking_system.Os.{Mutex, accounts_db_mutex, Call, Answer, load, Prog, ret, ◌>>◌}
use home_banking_system.Os.Run.{is_held}
use home_banking_system.Shared.Crypto.{gen_salt, gen_hash}
use home_banking_system.Shared.Accounts.{load_account, change_account, authenticate, create_account}
use home_banking_system.Shared.Accounts.Login.{IsStored}
use home_banking_system.Server.Paths.{
  HasArrays, Follows, Follows-then, Follows-and_then, Keeps, Same,
}
use home_banking_system.Server.Paths.Crypto.{SaltIn, gen_salt-Follows, gen_hash-Follows}

-- The end of `create_account`, from the result of `gen_hash`.
abbrev store_hashed : ℕ → ℕ → ℤ × List ℕ → Prog RetCode
store_hashed account_id balance hashed = do
  change_account account_id (λ a. record a { hash = hashed.1 })
  if not_zero hashed.0 then ret rc_other else do
    change_account account_id (λ a. record a { account_id = account_id })
    change_account account_id (λ a. record a { balance = balance })
    ret rc_ok

module _ (Can : (c : Call) → Answer c → Type 0)
    (loads : (i : ℕ) (a : Account) → Can (load i) a → IsStored a) (held : List Mutex) where
  pub load_account-Follows :
      (i : ℕ) → i < max_bank_accounts → Follows Can (Keeps IsStored held) held (load_account i)
  unfolding load_account
  load_account-Follows i small =
      rw (lt→ltb i max_bank_accounts small) (tt, λ a can. (refl, loads i a can))

  pub authenticate-Follows :
      (pwd : List ℕ) (a : Account)
      → length pwd ≤ max_password_len
      → IsStored a
      → Follows Can (Same held) held (authenticate pwd a)
  unfolding authenticate
  authenticate-Follows pwd a short stored = elim (Bool-cases (a.account_id == empty_account_id)) [
    | inl e ↦ rw e refl
    | inr e ↦ rw e (
      tt,
      λ array _.
          Follows-and_then Can (λ r. length r.1 ≡ length array) (Same held) held held
            (gen_hash pwd a.salt array) _
            (gen_hash-Follows Can held pwd a.salt array short
              (stored.salt_ends (λ h. ground arith)))
            (λ r _. refl),
    )
  ]

  -- A change that keeps the arrays' sizes, to an account whose mutex is held.
  pub change_account-Follows :
      (i : ℕ) (change : Account → Account)
      → i < max_bank_accounts
      → is_held (accounts_db_mutex i) held ≡ true
      → ((a : Account) → HasArrays a → HasArrays (change a))
      → Follows Can (Same held) held (change_account i change)
  unfolding change_account
  change_account-Follows i change small mine keeps =
      Follows-and_then Can IsStored (Same held) held held (load_account i) _
        (load_account-Follows i small)
        (λ a stored. ((mine, keeps a (stored.hash_size, stored.salt_size)), λ r _. refl))

  hashed-Follows :
      (i balance : ℕ) (hashed : ℤ × List ℕ)
      → i < max_bank_accounts
      → is_held (accounts_db_mutex i) held ≡ true
      → length hashed.1 ≡ hash_len + 1
      → Follows Can (Same held) held (store_hashed i balance hashed)
  hashed-Follows i balance hashed small mine size =
      Follows-then Can (Same held) held held (change_account i (λ a. record a { hash = hashed.1 }))
        _ (change_account-Follows i _ small mine (λ b (hash, salt). (size, salt)))
        (λ _. elim (Bool-cases (not_zero hashed.0)) [
          | inl e ↦ rw e refl
          | inr e ↦ rw e (
              Follows-then Can (Same held) held held
                (change_account i (λ a. record a { account_id = i })) _
                (change_account-Follows i _ small mine (λ b sizes. sizes))
                (λ _.
                  Follows-then Can (Same held) held held
                    (change_account i (λ a. record a { balance = balance })) _
                    (change_account-Follows i _ small mine (λ b sizes. sizes)) (λ _. refl)))
        ])

  -- Every write on the way is to the account's own memory, under its mutex.
  pub create_account-Follows :
      (pwd : List ℕ) (i balance : ℕ)
      → length pwd ≤ max_password_len
      → i < max_bank_accounts
      → is_held (accounts_db_mutex i) held ≡ true
      → Follows Can (Same held) held (create_account pwd i balance)
  unfolding create_account
  create_account-Follows pwd i balance short small mine =
      Follows-and_then Can IsStored (Same held) held held (load_account i) _
        (load_account-Follows i small)
        (λ a stored.
          Follows-and_then Can (SaltIn a.salt) (Same held) held held
            (gen_salt a.salt (salt_len + 1) salt_len) _
            (gen_salt-Follows Can held a.salt (omega (arith, stored.salt_size)))
            (λ made (size, ends).
              Follows-then Can (Same held) held held
                (change_account i (λ a. record a { salt = made.1 })) _
                (change_account-Follows i _ small mine
                  (λ b (hash, salt). (hash, size ∙ stored.salt_size)))
                (λ _. elim (Bool-cases (not_zero made.0)) [
                  | inl e ↦ rw e refl
                  | inr e ↦ rw e (
                      Follows-and_then Can (λ r. length r.1 ≡ length a.hash) (Same held) held held
                        (gen_hash pwd made.1 a.hash) _
                        (gen_hash-Follows Can held pwd made.1 a.hash short ends)
                        (λ hashed kept.
                          hashed-Follows i balance hashed small mine (kept ∙ stored.hash_size)))
                ])))
