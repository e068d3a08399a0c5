-- ===== src/Server/Requests/Discipline/Handlers.antt =====
-- The three handlers that take at most one account's mutex.
use home_banking_system.Base.{ℕ, ◌≤◌, refl, subst, [], ◌∷◌, arith, length, Bool-cases, inl, inr}
use home_banking_system.Base.Int.{ℤ, pos, not_zero, to_int-pos}
use home_banking_system.Types.{ReqValue, create_of, rc_other, max_password_len, role_account}
use home_banking_system.Os.{accounts_db_mutex, Call, Answer}
use home_banking_system.Server.Paths.{Follows, Follows-then, Follows-if, Same}
use home_banking_system.Server.Sync.{unlock_accounts_db_mutex, stdout_fileno}
use home_banking_system.Server.Sync.Discipline.{
  unlock_accounts_db_mutex-Follows, sync_log_delay-Follows,
}
use home_banking_system.Server.SyncLog.{sync_log_delay}
use home_banking_system.Server.Requests.{
  is_ok, is_valid_shutdown_request, delay_holding, create_if_valid, create_request,
  balance_if_valid, balance_request, shutdown_request,
}
use home_banking_system.Server.Requests.Checks.{
  IsRequest, IsLogin, header_only, header_only-IsRequest,
}
use home_banking_system.Server.Requests.Balance.{balance_request-header_only}
use home_banking_system.Server.Requests.Shutdown.{shutdown_request-header_only}
use home_banking_system.Server.Requests.Discipline.{
  IsFair, delay_holding-Follows, is_valid_shutdown_request-Follows, create_if_valid-Follows,
  balance_if_valid-Follows, under_account-Follows, release_one-Follows,
}

module _ (Can : (c : Call) → Answer c → Type 0) (fair : IsFair Can) (v : ReqValue) (q : IsRequest v)
    (id : ℤ) where
  pub create_request-Follows :
      length (create_of v).password ≤ max_password_len
      → Follows Can (Same []) [] (create_request v id)
  unfolding create_request
  create_request-Follows short =
      let i = (create_of v).account_id in
      rw (to_int-pos i (omega (arith, q.other_id))) (
        under_account-Follows Can fair v q id i rc_other _ q.other_id (
          Follows-then Can (Same []) (accounts_db_mutex i ∷ []) (accounts_db_mutex i ∷ [])
            (delay_holding v id (pos i)) _
            (delay_holding-Follows Can fair v q (accounts_db_mutex i ∷ []) id (pos i)
              (omega (arith, q.other_id), tt))
            (λ _.
              Follows-then Can (Same []) (accounts_db_mutex i ∷ []) (accounts_db_mutex i ∷ [])
                (create_if_valid v) _
                (create_if_valid-Follows Can fair v q (accounts_db_mutex i ∷ []) short
                  (ground arith))
                (λ code.
                  Follows-then Can (Same []) (accounts_db_mutex i ∷ []) []
                    (unlock_accounts_db_mutex id role_account (pos i)) _
                    (unlock_accounts_db_mutex-Follows Can fair.unlocks id role_account i []
                      q.other_id tt)
                    (λ r. Follows-if Can (Same []) [] (not_zero r) _ _ (λ _. refl) (λ _. refl))))))

  balance_request-Follows : (b : ℕ) → Follows Can (Same []) [] (balance_request v id b)
  unfolding balance_request
  balance_request-Follows b =
      let i = v.header.account_id in
      rw (to_int-pos i (omega (arith, q.header_id))) (
        under_account-Follows Can fair v q id i (rc_other, b) _ q.header_id
          (Follows-then Can (Same []) (accounts_db_mutex i ∷ []) (accounts_db_mutex i ∷ [])
            (delay_holding v id (pos i)) _
            (delay_holding-Follows Can fair v q (accounts_db_mutex i ∷ []) id (pos i)
              (omega (arith, q.header_id), tt))
            (λ _.
              Follows-then Can (Same []) (accounts_db_mutex i ∷ []) (accounts_db_mutex i ∷ [])
                (balance_if_valid v b) _
                (balance_if_valid-Follows Can fair v q (accounts_db_mutex i ∷ []) b)
                (λ result. release_one-Follows Can fair v q id i [] result q.header_id tt))))

  shutdown_request-Follows :
      (srv dummy : ℤ) → Follows Can (Same []) [] (shutdown_request v id srv dummy)
  unfolding shutdown_request
  shutdown_request-Follows srv dummy = (
    tt,
    λ _ _.
        Follows-then Can (Same []) [] [] (sync_log_delay stdout_fileno id v.header.op_delay_ms) _
          (sync_log_delay-Follows Can fair.unlocks stdout_fileno id v.header.op_delay_ms)
          (λ _.
            Follows-then Can (Same []) [] [] (is_valid_shutdown_request v) _
              (is_valid_shutdown_request-Follows Can fair v q [])
              (λ code. elim (Bool-cases (is_ok code)) [
                | inl e ↦ rw e (
                  tt,
                  λ _ _. (
                    tt,
                    λ r _.
                        Follows-if Can (Same []) [] (not_zero r) _ _ (λ _. refl)
                          (λ _. (
                            tt,
                            λ r _.
                                Follows-if Can (Same []) [] (not_zero r) _ _ (λ _. refl)
                                  (λ _. refl),
                          )),
                  ),
                )
                | inr e ↦ rw e refl
              ])),
  )

module _ (Can : (c : Call) → Answer c → Type 0) (fair : IsFair Can) (v : ReqValue) (q : IsLogin v)
    (id : ℤ) where
  pub balance_login-Follows : (b : ℕ) → Follows Can (Same []) [] (balance_request v id b)
  balance_login-Follows b =
      subst (Follows Can (Same []) []) (balance_request-header_only v id b)
        (balance_request-Follows Can fair (header_only v) (header_only-IsRequest v q) id b)

  pub shutdown_login-Follows :
      (srv dummy : ℤ) → Follows Can (Same []) [] (shutdown_request v id srv dummy)
  shutdown_login-Follows srv dummy =
      subst (Follows Can (Same []) []) (shutdown_request-header_only v id srv dummy)
        (shutdown_request-Follows Can fair (header_only v) (header_only-IsRequest v q) id srv dummy)

-- On every path of `create_request` (for two numbers of accounts and passwords that fit), and of
-- `balance_request` and `shutdown_request` (for a header with the number of an account and a password
-- that fits), that starts with no mutex held, whatever other threads write meanwhile and whichever
-- calls fail: each mutex that is taken has a higher rank than all that are held, only a held one is
-- given back, an account is written only under its own mutex and with arrays of the right sizes,
-- nothing is undefined, and the path ends with no mutex held. This relies on a held mutex's being
-- given back successfully, and on what is loaded having arrays of the right sizes and, if it is in
-- use, a salt that ends within its array.
pub handlers_follow :
    (Can : (c : Call) → Answer c → Type 0) (v w : ReqValue) (id srv dummy : ℤ) (b : ℕ)
    → IsFair Can
    → IsRequest v
    → length (create_of v).password ≤ max_password_len
    → IsLogin w
    → Follows Can (Same []) [] (create_request v id)
      × Follows Can (Same []) [] (balance_request w id b)
      × Follows Can (Same []) [] (shutdown_request w id srv dummy)
handlers_follow Can v w id srv dummy b fair q short login = (
  create_request-Follows Can fair v q id short,
  balance_login-Follows Can fair w login id b,
  shutdown_login-Follows Can fair w login id srv dummy,
)
