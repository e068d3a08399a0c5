-- ===== src/Server/Requests/Release.antt =====
-- The unlocks at the end of a transfer and of a balance check, when no call fails.
use home_banking_system.Base.{ℕ, ◌<◌, ◌≡◌, refl, ◌∙◌, [], ◌∷◌}
use home_banking_system.Base.Int.{ℤ, pos}
use home_banking_system.Types.{RetCode, max_bank_accounts, role_account, op_mutex_unlock}
use home_banking_system.Os.{accounts_db_mutex}
use home_banking_system.Os.Run.{Env, Sys, done, run, run_then, reliable}
use home_banking_system.Server.Sync.{unlock_accounts_db_mutex}
use home_banking_system.Server.Sync.Alone.{switched, unlock_lem}
use home_banking_system.Server.Requests.{release_one, release_two}

module _ (env : Env) (id : ℤ) (result : RetCode × ℕ) (s : Sys) where
  pub release_one_lem :
      (i : ℕ)
      → i < max_bank_accounts
      → s.held ≡ accounts_db_mutex i ∷ []
      → run (reliable env) (release_one id (pos i) result) s
        ≡ done result (switched op_mutex_unlock id role_account i [] s)
  unfolding release_one run
  release_one_lem i lt holds =
      run_then (reliable env) (unlock_accounts_db_mutex id role_account (pos i)) _ s
        (unlock_lem env id role_account i [] s lt holds refl)

  pub release_two_lem :
      (i j : ℕ)
      → i < max_bank_accounts
      → j < max_bank_accounts
      → s.held ≡ accounts_db_mutex j ∷ accounts_db_mutex i ∷ []
      → run (reliable env) (release_two id (pos i) (pos j) result) s
        ≡ done result (
            switched op_mutex_unlock id role_account i []
              (switched op_mutex_unlock id role_account j (accounts_db_mutex i ∷ []) s))
  unfolding release_two release_one run
  release_two_lem i j lt lt' holds =
      run_then (reliable env) (unlock_accounts_db_mutex id role_account (pos j)) _ s
        (unlock_lem env id role_account j (accounts_db_mutex i ∷ []) s lt' holds refl)
      ∙ run_then (reliable env) (unlock_accounts_db_mutex id role_account (pos i)) _ _
          (unlock_lem env id role_account i [] _ lt refl refl)
