-- ===== src/Server/Requests/Transfer/Body.antt =====
-- What a transfer does under its mutexes, when no call fails.
use home_banking_system.Base.{
  ℕ, ◌+◌, ◌-◌, ◌%◌, ◌^◌, ◌≤◌, ◌≡◌, ◌≢◌, ap, ◌∙◌, inl, inr, true, arith, if◌then◌else◌, Bool-cases,
  fun_ext,
}
use home_banking_system.Types.{Account, ReqValue, transfer_of, empty_account_id, max_balance}
use home_banking_system.Os.Run.{Env, Sys, done, run, run_then, reliable, update}
use home_banking_system.Shared.Crypto.Digest.{IsDigest}
use home_banking_system.Shared.Accounts.{load_account, change_account}
use home_banking_system.Shared.Accounts.Create.{load_account_lem, change_account_lem}
use home_banking_system.Server.Requests.{
  is_ok, is_valid_transfer_request, move_funds, transfer_if_valid,
}
use home_banking_system.Server.Requests.Errors.{WithinLimit, transfer_checks}
use home_banking_system.Server.Requests.Checks.{IsRequest, AllStored, transfer_check_lem}

-- The accounts after a transfer: the amount has left one and reached the other.
abbrev pub paid : (ℕ → Account) → ReqValue → ℕ → Account
paid f v =
    let o = v.header.account_id in
    let d = (transfer_of v).account_id in
    let amount = (transfer_of v).amount in
    update (update f o (record (f o) { balance = (f o).balance - amount })) d
      (record (f d) { balance = (f d).balance + amount })

module _ (env : Env) (v : ReqValue) (s : Sys) (d : IsDigest env) (q : IsRequest v)
    (h : AllStored s.accounts) (ho : WithinLimit (s.accounts v.header.account_id))
    (hd : WithinLimit (s.accounts (transfer_of v).account_id))
    (in_use : (s.accounts v.header.account_id).account_id ≢ empty_account_id) where
  abbrev o : ℕ
  o = v.header.account_id

  abbrev dest : ℕ
  dest = (transfer_of v).account_id

  -- What a transfer with no error has shown.
  record Cleared : Type 0 where
    two : o ≢ dest
    funds : (transfer_of v).amount ≤ (s.accounts o).balance
    room : (s.accounts dest).balance + (transfer_of v).amount ≤ max_balance

  cleared : is_ok (transfer_checks env s.accounts v) ≡ true → Cleared
  cleared e = ground (arith, ho, hd)

  -- The wrapped arithmetic is exact, and the second update does not see the first.
  debit : ℕ → Account
  debit = update s.accounts o (record (s.accounts o) {
    balance = ((s.accounts o).balance + 2 ^ 32 - (transfer_of v).amount) % 2 ^ 32;
  })

  moved-paid :
      is_ok (transfer_checks env s.accounts v) ≡ true
      → update debit dest (record (debit dest) {
        balance = ((debit dest).balance + (transfer_of v).amount) % 2 ^ 32;
      })
        ≡ paid s.accounts v
  unfolding debit
  moved-paid e = let c = cleared e in fun_ext λ j. ground (arith, c.two, c.funds, c.room, ho in_use)

  -- The accounts that the body leaves.
  abbrev pub outcome : ℕ → Account
  outcome = if is_ok (transfer_checks env s.accounts v) then paid s.accounts v else s.accounts

  move_funds_lem :
      is_ok (transfer_checks env s.accounts v) ≡ true
      → run (reliable env) (move_funds v) s ≡ done tt (record s { accounts = paid s.accounts v })
  unfolding move_funds debit
  move_funds_lem e =
      run_then (reliable env) (change_account o _) _ s
        (change_account_lem (reliable env) o _ s q.header_id)
      ∙ change_account_lem (reliable env) dest _ (record s { accounts = debit }) q.other_id
      ∙ ap (λ (g : ℕ → Account). done tt (record s { accounts = g })) (moved-paid e)

  -- The code of the first check that fails, and the balance after what was done.
  pub transfer_if_valid_lem :
      run (reliable env) (transfer_if_valid v) s
      ≡ done
          (transfer_checks env s.accounts v, (outcome o).balance)
          (record s { accounts = outcome })
  unfolding transfer_if_valid run
  transfer_if_valid_lem =
      run_then (reliable env) (is_valid_transfer_request v) _ s (transfer_check_lem env v s d q h)
      ∙ elim (Bool-cases (is_ok (transfer_checks env s.accounts v))) [
        | inl e ↦ rw e (
            run_then (reliable env) (move_funds v) _ s (move_funds_lem e)
            ∙ run_then (reliable env) (load_account o) _ _
                (load_account_lem (reliable env) o _ q.header_id))
        | inr e ↦ rw e (
            run_then (reliable env) (load_account o) _ s
              (load_account_lem (reliable env) o s q.header_id))
      ]
