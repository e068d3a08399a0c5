-- ===== src/Server/Requests/Create.antt =====
-- `create_request` when no call fails.
use home_banking_system.Base.{
  ℕ, ◌+◌, ◌≤◌, ◌≡◌, refl, subst, ◌∙◌, inl, inr, true, false, List, [], ◌∷◌, arith, if◌then◌else◌,
  length, Bool-cases,
}
use home_banking_system.Base.Int.{ℤ, pos, to_int-pos}
use home_banking_system.Types.{
  Account, ReqValue, create_of, RetCode, rc_ok, max_password_len, salt_len, role_account,
  op_mutex_lock, op_mutex_unlock,
}
use home_banking_system.Os.{accounts_db_mutex}
use home_banking_system.Os.Run.{Env, Sys, done, run, run_then, reliable, update, Ends}
use home_banking_system.Shared.Crypto.{c_string}
use home_banking_system.Shared.Crypto.Digest.{IsDigest}
use home_banking_system.Shared.Accounts.Login.{authed}
use home_banking_system.Shared.Accounts.Create.{fresh, created, create_account_lem, fresh-IsStored}
use home_banking_system.Server.Sync.{lock_accounts_db_mutex, unlock_accounts_db_mutex}
use home_banking_system.Server.Sync.Alone.{switched, lock_lem, unlock_lem}
use home_banking_system.Server.Requests.{
  is_ok, is_ok-eq, is_valid_create_request, create_if_valid, create_request, delay_holding,
}
use home_banking_system.Server.Requests.Errors.{
  IsFirstError, orig, create_errors, create_code, create_code-first,
}
use home_banking_system.Server.Requests.Checks.{
  IsRequest, AllStored, AllStored-update, delayed, delay_lem, create_check_lem,
}

module _ (env : Env) (v : ReqValue) (s : Sys) (d : IsDigest env) (q : IsRequest v)
    (short : length (create_of v).password ≤ max_password_len) (h : AllStored s.accounts) where
  abbrev id_of : ℕ
  id_of = (create_of v).account_id

  -- A request with no error: the account is made, with some salt.
  valid_lem :
      is_ok (create_code env s.accounts v) ≡ true
      → (salt : List ℕ) × (run (reliable env) (create_if_valid v) s
          ≡ done rc_ok (
              created id_of
                (fresh env (create_of v).password id_of (create_of v).balance salt)
                (authed (orig env s.accounts v) s)))
        × (length salt ≡ salt_len + 3)
        × (length (c_string salt) ≤ salt_len)
  unfolding create_if_valid
  valid_lem e =
      let (salt, runs, size, ends) =
        create_account_lem env (create_of v).password id_of (create_of v).balance
          (authed (orig env s.accounts v) s) d short q.other_id (h id_of q.other_id) in
      (
        salt,
        run_then (reliable env) (is_valid_create_request v) _ s (create_check_lem env v s d q h)
            ∙ rw e runs,
        size,
        ends,
      )

  -- A request with an error: nothing is stored.
  invalid_lem :
      is_ok (create_code env s.accounts v) ≡ false
      → run (reliable env) (create_if_valid v) s
        ≡ done (create_code env s.accounts v) (authed (orig env s.accounts v) s)
  unfolding create_if_valid run
  invalid_lem e =
      run_then (reliable env) (is_valid_create_request v) _ s (create_check_lem env v s d q h)
      ∙ rw e refl

module _ (env : Env) (v : ReqValue) (id : ℤ) (s : Sys) (q : IsRequest v) where
  abbrev target : ℕ
  target = (create_of v).account_id

  -- The state between the lock and the unlock.
  abbrev inside : Sys
  inside =
      delayed v id (pos target)
        (switched op_mutex_lock id role_account target (accounts_db_mutex target ∷ s.held) s)

  -- The lock, the delay, the body and the unlock.
  bracket_lem :
      (code : RetCode) (t : Sys)
      → s.held ≡ []
      → run (reliable env) (create_if_valid v) inside ≡ done code t
      → t.held ≡ accounts_db_mutex target ∷ []
      → run (reliable env) (create_request v id) s
        ≡ done code (switched op_mutex_unlock id role_account target [] t)
  unfolding create_request run
  bracket_lem code t free body holds = rw (to_int-pos target (omega (arith, q.other_id))) (
      run_then (reliable env) (lock_accounts_db_mutex id role_account (pos target)) _ s
        (lock_lem env id role_account target s q.other_id (rw free refl) (rw free refl))
      ∙ run_then (reliable env) (delay_holding v id (pos target)) _ _
          (delay_lem env v id (pos target) _ (rw free refl))
      ∙ run_then (reliable env) (create_if_valid v) _ _ body
      ∙ run_then (reliable env) (unlock_accounts_db_mutex id role_account (pos target)) _ t
          (unlock_lem env id role_account target [] t q.other_id holds refl))

-- What a request to create an account among the accounts `f` returns and leaves.
abbrev pub CreateEffect : Env → (ℕ → Account) → ReqValue → RetCode → Sys → Type 0
CreateEffect env f v code t =
    let c = create_of v in
    IsFirstError (create_errors env f v) code
    × (t.held ≡ [])
    × ((salt : List ℕ) × (t.accounts ≡ (
          if is_ok code
          then update f c.account_id (fresh env c.password c.account_id c.balance salt)
          else f)))
    × AllStored t.accounts

-- When no call fails, `create_request` on a valid pair of account numbers, run by an office that
-- holds no mutex, returns `RC_OK` if the request has no error and otherwise the first error in the
-- order of `ret_code`; the accounts change only in the first case, where the new account, with its
-- number, its balance and the hash of its password under a new salt, is stored under its number; the
-- office again holds no mutex, and every account's arrays keep their sizes.
pub create_request_effect :
    (env : Env) (v : ReqValue) (id : ℤ) (s : Sys)
    → IsDigest env
    → IsRequest v
    → length (create_of v).password ≤ max_password_len
    → AllStored s.accounts
    → s.held ≡ []
    → Ends (CreateEffect env s.accounts v) (run (reliable env) (create_request v id) s)
create_request_effect env v id s d q short h free =
    elim (Bool-cases (is_ok (create_code env s.accounts v))) [
      | inl e ↦
          let (salt, runs, size, ends) = valid_lem env v (inside env v id s q) d q short h e in
          rw (bracket_lem env v id s q rc_ok _ free runs (rw free refl)) (
            subst (IsFirstError (create_errors env s.accounts v)) (is_ok-eq _ e)
                (create_code-first env s.accounts v),
            refl,
            (salt, refl),
            AllStored-update s.accounts (create_of v).account_id _ h (
                fresh-IsStored env (create_of v).password (create_of v).account_id
                  (create_of v).balance salt d size ends),
          )
      | inr e ↦
          rw
            (bracket_lem env v id s q _ _ free
              (invalid_lem env v (inside env v id s q) d q short h e) (rw free refl))
            (create_code-first env s.accounts v, refl, ([], rw e refl), h)
    ]
