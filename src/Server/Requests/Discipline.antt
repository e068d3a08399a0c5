-- ===== src/Server/Requests/Discipline.antt =====
-- The steps of the handlers of server_f/requests.c against the rules of Server/Paths, on every path:
-- while other offices run, calls fail, or memory changes under a handler.
pub mod Handlers
pub mod Transfer
use home_banking_system.Base.{
  ℕ, ◌+◌, ◌≤◌, ◌<◌, ◌≡◌, refl, Bool, true, false, lt→ltb, ltb, ◌||◌, List, [], ◌∷◌, arith, ◌==◌,
  length, if◌then◌else◌, Bool-cases, inl, inr,
}
use home_banking_system.Base.Int.{ℤ, pos, not_zero, to_int, to_int-pos}
use home_banking_system.Types.{
  Account, ReqValue, create_of, transfer_of, RetCode, rc_other, rc_login_fail, max_bank_accounts,
  max_password_len, role_account, admin_account_id, empty_account_id, max_balance,
}
use home_banking_system.Os.{
  Mutex, log_mutex, accounts_db_mutex, Call, Answer, mutex_unlock, load, Prog, ret, ◌>>=◌, ◌>>◌,
}
use home_banking_system.Os.Run.{is_held}
use home_banking_system.Shared.Accounts.{load_account, change_account, authenticate, create_account}
use home_banking_system.Shared.Accounts.Login.{IsStored}
use home_banking_system.Server.Paths.{
  IsAbove, Follows, Follows-then, Follows-and_then, Follows-if, Follows->>=, Keeps, Same,
}
use home_banking_system.Server.Paths.Accounts.{
  load_account-Follows, authenticate-Follows, change_account-Follows, create_account-Follows,
}
use home_banking_system.Server.Sync.{
  lock_accounts_db_mutex, unlock_accounts_db_mutex, stdout_fileno,
}
use home_banking_system.Server.Sync.Discipline.{
  Taken, lock_accounts_db_mutex-Follows, unlock_accounts_db_mutex-Follows,
  sync_log_sync_delay-Follows, sync_log_delay-Follows,
}
use home_banking_system.Server.SyncLog.{sync_log_sync_delay, sync_log_delay}
use home_banking_system.Server.Requests.{
  is_ok, is_valid_create_request, is_valid_transfer_request, is_valid_balance_request,
  is_valid_shutdown_request, delay_holding, create_if_valid, create_request, balance_if_valid,
  balance_request, move_funds, transfer_if_valid, transfer_request, release_one, release_two,
  transfer_locked, transfer_to_self, transfer_to_other, shutdown_request, min, max,
}
use home_banking_system.Server.Requests.Checks.{IsRequest}

-- What is relied on: giving back a held mutex succeeds, and the accounts' arrays in memory have
-- their sizes, with a salt in use that ends within its own.
pub record IsFair (Can : (c : Call) → Answer c → Type 0) : Type 0 where
  pub unlocks : (m : Mutex) (r : ℤ) → Can (mutex_unlock m) r → r ≡ pos 0
  pub loads : (i : ℕ) (a : Account) → Can (load i) a → IsStored a

module _ (Can : (c : Call) → Answer c → Type 0) (fair : IsFair Can) (v : ReqValue) (q : IsRequest v)
    (held : List Mutex) where
  -- The check of the password, at the start of each check but that of a transfer.
  pub logged_in-Follows :
      {A : Type 0} (P : A → List Mutex → Type 0) (f : ℤ → Prog A)
      → ((differs : ℤ) → Follows Can P held (f differs))
      → Follows Can P held (do
        a ← load_account v.header.account_id
        differs ← authenticate v.header.password a
        f differs)
  logged_in-Follows P f next =
      Follows-and_then Can IsStored P held held (load_account v.header.account_id) _
        (load_account-Follows Can fair.loads held v.header.account_id q.header_id)
        (λ a stored.
          Follows-then Can P held held (authenticate v.header.password a) f
            (authenticate-Follows Can fair.loads held v.header.password a q.password stored) next)

  pub delay_holding-Follows :
      (id sid : ℤ) → IsAbove log_mutex held → Follows Can (Same held) held (delay_holding v id sid)
  unfolding delay_holding
  delay_holding-Follows id sid logs = (
    tt,
    λ r _.
        Follows-then Can (Same held) held held
          (sync_log_sync_delay stdout_fileno id sid v.header.op_delay_ms) _
          (sync_log_sync_delay-Follows Can fair.unlocks stdout_fileno id sid v.header.op_delay_ms
            held logs)
          (λ _. refl),
  )

  pub is_valid_balance_request-Follows : Follows Can (Same held) held (is_valid_balance_request v)
  unfolding is_valid_balance_request
  is_valid_balance_request-Follows = logged_in-Follows (Same held) _ (λ differs. ground arith)

  pub is_valid_shutdown_request-Follows : Follows Can (Same held) held (is_valid_shutdown_request v)
  unfolding is_valid_shutdown_request
  is_valid_shutdown_request-Follows = logged_in-Follows (Same held) _ (λ differs. ground arith)

  pub is_valid_create_request-Follows : Follows Can (Same held) held (is_valid_create_request v)
  unfolding is_valid_create_request
  is_valid_create_request-Follows = logged_in-Follows (Same held) _ (λ differs.
      elim (Bool-cases (not_zero differs)) [
        | inl e ↦ rw e refl
        | inr e ↦ rw e (
            Follows-if Can (Same held) held (v.header.account_id == admin_account_id) _ _
              (λ _.
                Follows-and_then Can IsStored (Same held) held held
                  (load_account (create_of v).account_id) _
                  (load_account-Follows Can fair.loads held (create_of v).account_id q.other_id)
                  (λ a _. ground arith))
              (λ _. refl))
      ])

  pub loaded-Follows :
      (i : ℕ)
      → i < max_bank_accounts
      → (f : Account → Prog RetCode) → ((a : Account) → Follows Can (Same held) held (f a))
      → Follows Can (Same held) held (load_account i >>= f)
  loaded-Follows i small f next =
      Follows-and_then Can IsStored (Same held) held held (load_account i) f
        (load_account-Follows Can fair.loads held i small) (λ a _. next a)

  pub is_valid_transfer_request-Follows : Follows Can (Same held) held (is_valid_transfer_request v)
  unfolding is_valid_transfer_request
  is_valid_transfer_request-Follows =
      let o = v.header.account_id in
      let d = (transfer_of v).account_id in
      elim (Bool-cases ((o == admin_account_id) || (d == admin_account_id))) [
        | inl e ↦ rw e refl
        | inr e ↦ rw e (
            loaded-Follows d q.other_id _ (λ dest.
              elim (Bool-cases (dest.account_id == empty_account_id)) [
                | inl e ↦ rw e refl
                | inr e ↦ rw e (elim (Bool-cases (o == d)) [
                  | inl e ↦ rw e refl
                  | inr e ↦ rw e (
                      loaded-Follows o q.header_id _ (λ orig.
                        elim (Bool-cases (ltb orig.balance (transfer_of v).amount)) [
                          | inl e ↦ rw e refl
                          | inr e ↦ rw e (loaded-Follows d q.other_id _ (λ dest. ground arith))
                        ]))
                ])
              ]))
      ]

  pub create_if_valid-Follows :
      length (create_of v).password ≤ max_password_len
      → is_held (accounts_db_mutex (create_of v).account_id) held ≡ true
      → Follows Can (Same held) held (create_if_valid v)
  unfolding create_if_valid
  create_if_valid-Follows short mine =
      let c = create_of v in
      Follows-then Can (Same held) held held (is_valid_create_request v) _
        is_valid_create_request-Follows
        (λ code. elim (Bool-cases (is_ok code)) [
          | inl e ↦ rw e (
              create_account-Follows Can fair.loads held c.password c.account_id c.balance short
                q.other_id mine)
          | inr e ↦ rw e refl
        ])

  pub balance_if_valid-Follows : (b : ℕ) → Follows Can (Same held) held (balance_if_valid v b)
  unfolding balance_if_valid
  balance_if_valid-Follows b =
      Follows-then Can (Same held) held held (is_valid_balance_request v) _
        is_valid_balance_request-Follows
        (λ code. elim (Bool-cases (is_ok code)) [
          | inl e ↦ rw e (
              Follows-and_then Can IsStored (Same held) held held (load_account v.header.account_id)
                _ (load_account-Follows Can fair.loads held v.header.account_id q.header_id)
                (λ a _. refl))
          | inr e ↦ rw e refl
        ])

  pub move_funds-Follows :
      is_held (accounts_db_mutex v.header.account_id) held ≡ true
      → is_held (accounts_db_mutex (transfer_of v).account_id) held ≡ true
      → Follows Can (Same held) held (move_funds v)
  unfolding move_funds
  move_funds-Follows from to =
      Follows-then Can (Same held) held held (change_account v.header.account_id _) _
        (change_account-Follows Can fair.loads held v.header.account_id _ q.header_id from
          (λ a sizes. sizes))
        (λ _.
          change_account-Follows Can fair.loads held (transfer_of v).account_id _ q.other_id to
            (λ a sizes. sizes))

  pub transfer_if_valid-Follows :
      is_held (accounts_db_mutex v.header.account_id) held ≡ true
      → is_held (accounts_db_mutex (transfer_of v).account_id) held ≡ true
      → Follows Can (Same held) held (transfer_if_valid v)
  unfolding transfer_if_valid
  transfer_if_valid-Follows from to =
      Follows-then Can (Same held) held held (is_valid_transfer_request v) _
        is_valid_transfer_request-Follows
        (λ code.
          Follows-then Can (Same held) held held (if is_ok code then move_funds v else ret tt) _
            (Follows-if Can (Same held) held (is_ok code) _ _ (λ _. move_funds-Follows from to)
              (λ _. refl))
            (λ _.
              Follows-and_then Can IsStored (Same held) held held (load_account v.header.account_id)
                _ (load_account-Follows Can fair.loads held v.header.account_id q.header_id)
                (λ a _. refl)))

module _ (Can : (c : Call) → Answer c → Type 0) (fair : IsFair Can) (v : ReqValue) (q : IsRequest v)
    (id : ℤ) where
  -- A program under one mutex.
  pub under_account-Follows :
      {A : Type 0} (i : ℕ) (failed : A) (body : Prog A)
      → i < max_bank_accounts
      → Follows Can (Same []) (accounts_db_mutex i ∷ []) body
      → Follows Can (Same []) [] (do
        r ← lock_accounts_db_mutex id role_account (pos i)
        if not_zero r then ret failed else body)
  under_account-Follows {A} i failed body small p =
      Follows->>= Can (Taken (accounts_db_mutex i) []) (Same []) []
        (lock_accounts_db_mutex id role_account (pos i)) _
        (lock_accounts_db_mutex-Follows Can fair.unlocks id role_account i [] small tt tt)
        (λ r h taken. elim (Bool-cases (not_zero r)) [
          | inl e ↦ rw (taken, e) refl
          | inr e ↦ rw (taken, e) p
        ])

  pub release_one-Follows :
      (i : ℕ) (held : List Mutex) (result : RetCode × ℕ)
      → i < max_bank_accounts
      → IsAbove log_mutex held
      → Follows Can (Same held) (accounts_db_mutex i ∷ held) (release_one id (pos i) result)
  unfolding release_one
  release_one-Follows i held result small logs =
      Follows-then Can (Same held) (accounts_db_mutex i ∷ held) held
        (unlock_accounts_db_mutex id role_account (pos i)) _
        (unlock_accounts_db_mutex-Follows Can fair.unlocks id role_account i held small logs)
        (λ r. Follows-if Can (Same held) held (not_zero r) _ _ (λ _. refl) (λ _. refl))
