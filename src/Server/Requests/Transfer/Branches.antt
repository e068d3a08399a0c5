-- ===== src/Server/Requests/Transfer/Branches.antt =====
-- The two branches of `transfer_request`, run when no call fails.
use home_banking_system.Base.{
  ℕ, ◌<◌, ◌≡◌, ◌≢◌, refl, inl, inr, [], ◌∷◌, arith, if◌then◌else◌, Bool-cases,
}
use home_banking_system.Base.Int.{ℤ, pos, to_int-pos}
use home_banking_system.Types.{
  Account, ReqValue, transfer_of, RetCode, max_bank_accounts, role_account,
}
use home_banking_system.Os.{accounts_db_mutex}
use home_banking_system.Os.Run.{Env, Sys, run, run_then, reliable, Ends, Ends-of_eq}
use home_banking_system.Shared.Crypto.Digest.{IsDigest}
use home_banking_system.Shared.Accounts.{load_account}
use home_banking_system.Shared.Accounts.Login.{accepts-in_use, authed, verdict-accepts}
use home_banking_system.Shared.Accounts.Create.{load_account_lem}
use home_banking_system.Server.Sync.{lock_accounts_db_mutex}
use home_banking_system.Server.Sync.Alone.{lock_lem}
use home_banking_system.Server.Requests.{
  is_ok, is_valid_transfer_request, transfer_if_valid, transfer_to_self, transfer_locked,
  transfer_to_other, delay_holding, release_one, release_two,
}
use home_banking_system.Server.Requests.Errors.{orig, logged_in, WithinLimit, transfer_code}
use home_banking_system.Server.Requests.Checks.{
  IsRequest, AllStored, delay_lem, login_then, transfer_check_lem,
}
use home_banking_system.Server.Requests.Release.{release_one_lem, release_two_lem}
use home_banking_system.Server.Requests.Transfer.Body.{paid, transfer_if_valid_lem}

-- How a transfer from the accounts `f` ends: its code and the balance that it reports, the
-- mutexes held and the accounts.
pub record TransferDone (env : Env) (f : ℕ → Account) (v : ReqValue) (final_balance : ℕ)
    (r : RetCode × ℕ) (t : Sys) : Type 0 where
  pub code : r.0 ≡ transfer_code env f v
  pub released : t.held ≡ []
  pub accounts : t.accounts ≡ (if is_ok (transfer_code env f v) then paid f v else f)
  pub reported :
      r.1 ≡ (if logged_in env f v then (t.accounts v.header.account_id).balance else final_balance)

module _ (env : Env) (v : ReqValue) (id : ℤ) (final_balance : ℕ) (s : Sys) (d : IsDigest env)
    (q : IsRequest v) (h : AllStored s.accounts) (ho : WithinLimit (s.accounts v.header.account_id))
    (hd : WithinLimit (s.accounts (transfer_of v).account_id)) where
  abbrev o : ℕ
  o = v.header.account_id

  abbrev dest : ℕ
  dest = (transfer_of v).account_id

  abbrev Done : RetCode × ℕ → Sys → Type 0
  Done = TransferDone env s.accounts v final_balance

  -- The unlocks keep what the body has left.
  abbrev Left : RetCode × ℕ → (ℕ → Account) → Type 0
  Left r g =
      (r.0 ≡ transfer_code env s.accounts v)
      × (g ≡ (if is_ok (transfer_code env s.accounts v) then paid s.accounts v else s.accounts))
      × (r.1 ≡ (if logged_in env s.accounts v then (g o).balance else final_balance))

  finish_one :
      (r : RetCode × ℕ) (u : Sys) (i : ℕ)
      → i < max_bank_accounts
      → u.held ≡ accounts_db_mutex i ∷ []
      → Left r u.accounts
      → Ends Done (run (reliable env) (release_one id (pos i) r) u)
  finish_one r u i lt holds (code, accounts, reported) =
      rw (release_one_lem env id r u i lt holds)
        (record { code = code; released = refl; accounts = accounts; reported = reported })

  finish_two :
      (r : RetCode × ℕ) (u : Sys) (i j : ℕ)
      → i < max_bank_accounts
      → j < max_bank_accounts
      → u.held ≡ accounts_db_mutex j ∷ accounts_db_mutex i ∷ []
      → Left r u.accounts
      → Ends Done (run (reliable env) (release_two id (pos i) (pos j) r) u)
  finish_two r u i j lt lt' holds (code, accounts, reported) =
      rw (release_two_lem env id r u i j lt lt' holds)
        (record { code = code; released = refl; accounts = accounts; reported = reported })

  pub to_self_lem :
      o ≡ dest
      → s.held ≡ accounts_db_mutex o ∷ []
      → Ends Done (run (reliable env) (transfer_to_self v id (pos o) final_balance) s)
  unfolding transfer_to_self
  to_self_lem same holds =
      Ends-of_eq Done (login_then env v s d q h _) (elim (Bool-cases (logged_in env s.accounts v)) [
        | inl e ↦
            rw (verdict-accepts env v.header.password (orig env s.accounts v), e)
              (Ends-of_eq Done
                (run_then (reliable env) (load_account o) _ _ (
                  load_account_lem (reliable env) o (authed (orig env s.accounts v) s) q.header_id))
                (Ends-of_eq Done
                  (run_then (reliable env) (is_valid_transfer_request v) _ _
                    (transfer_check_lem env v (authed (orig env s.accounts v) s) d q h))
                  (finish_one _ _ o q.header_id holds (ground arith, ground arith, ground arith))))
        | inr e ↦
            rw (verdict-accepts env v.header.password (orig env s.accounts v), e)
              (finish_one _ _ o q.header_id holds (ground arith, ground arith, ground arith))
      ])

  locked_lem :
      (i j : ℕ)
      → i < max_bank_accounts
      → j < max_bank_accounts
      → o ≢ dest
      → s.held ≡ accounts_db_mutex j ∷ accounts_db_mutex i ∷ []
      → Ends Done (run (reliable env) (transfer_locked v id (pos i) (pos j) final_balance) s)
  unfolding transfer_locked
  locked_lem i j lt lt' ne holds =
      Ends-of_eq Done (login_then env v s d q h _) (elim (Bool-cases (logged_in env s.accounts v)) [
        | inl e ↦
            rw (verdict-accepts env v.header.password (orig env s.accounts v), e)
              (Ends-of_eq Done
                (run_then (reliable env) (transfer_if_valid v) _ _ (
                  transfer_if_valid_lem env v (authed (orig env s.accounts v) s) d q h ho hd
                    (accepts-in_use env v.header.password (orig env s.accounts v) e)))
                (finish_two _ _ i j lt lt' holds (ground arith, ground arith, ground arith)))
        | inr e ↦
            rw (verdict-accepts env v.header.password (orig env s.accounts v), e)
              (finish_two _ _ i j lt lt' holds (ground arith, ground arith, ground arith))
      ])

-- The two mutexes, the lower number first.
module _ (env : Env) (v : ReqValue) (id : ℤ) (final_balance : ℕ) (s : Sys) (d : IsDigest env)
    (q : IsRequest v) (h : AllStored s.accounts) (ho : WithinLimit (s.accounts v.header.account_id))
    (hd : WithinLimit (s.accounts (transfer_of v).account_id)) where
  pub to_other_lem :
      (i j : ℕ)
      → i < max_bank_accounts
      → j < max_bank_accounts
      → i ≢ j
      → v.header.account_id ≢ (transfer_of v).account_id
      → s.held ≡ accounts_db_mutex i ∷ []
      → Ends
          (TransferDone env s.accounts v final_balance)
          (run (reliable env) (transfer_to_other v id (pos i) (pos j) final_balance) s)
  unfolding transfer_to_other
  to_other_lem i j lt lt' ij ne holds =
      Ends-of_eq (TransferDone env s.accounts v final_balance)
        (run_then (reliable env) (lock_accounts_db_mutex id role_account (pos j)) _ s
          (lock_lem env id role_account j s lt' (rw holds refl) (rw holds (ground arith))))
        (rw (to_int-pos (transfer_of v).account_id (omega (arith, q.other_id))) (
          Ends-of_eq (TransferDone env s.accounts v final_balance)
            (run_then (reliable env) (delay_holding v id (pos (transfer_of v).account_id)) _ _
              (delay_lem env v id (pos (transfer_of v).account_id) _ (rw holds refl)))
            (locked_lem env v id final_balance _ d q h ho hd i j lt lt' ne (rw holds refl))))
