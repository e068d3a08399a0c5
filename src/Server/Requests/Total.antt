-- ===== src/Server/Requests/Total.antt =====
-- The money in the bank across `transfer_request` of server_f/requests.c.
use home_banking_system.Base.{
  ℕ, zero, suc, ◌+◌, ◌-◌, ◌≤◌, ◌<◌, ◌≡◌, ◌≢◌, refl, false, [], arith, ◌==◌, Bool-cases, inl, inr,
}
use home_banking_system.Base.Int.{ℤ}
use home_banking_system.Types.{
  Account, ReqValue, transfer_of, max_bank_accounts, max_balance, RetCode, rc_ok, rc_same_id,
  rc_no_funds, rc_too_high,
}
use home_banking_system.Os.Run.{Env, Sys, run, reliable, Ends, Ends-mono, update}
use home_banking_system.Shared.Crypto.Digest.{IsDigest}
use home_banking_system.Server.Requests.{is_ok, is_ok-eq, transfer_request}
use home_banking_system.Server.Requests.Errors.{IsFirstError, transfer_errors, WithinLimit}
use home_banking_system.Server.Requests.Checks.{IsRequest, AllStored}
use home_banking_system.Server.Requests.Transfer.{TransferEffect, transfer_request_effect}
use home_banking_system.Server.Requests.Transfer.Body.{paid}

-- The sum of the first `k` balances.
abbrev pub total : ℕ → (ℕ → Account) → ℕ
total zero f = 0
total (suc k) f = total k f + (f k).balance

total-update_past :
    (k : ℕ) (f : ℕ → Account) (i : ℕ) (a : Account) → k ≤ i → total k (update f i a) ≡ total k f
total-update_past zero f i a h = refl
total-update_past (suc k) f i a h = ground (arith, total-update_past k f i a (omega arith))

-- Replacing one balance changes the sum by the difference.
total-update :
    (k : ℕ) (f : ℕ → Account) (i : ℕ) (a : Account)
    → i < k
    → total k (update f i a) + (f i).balance ≡ total k f + a.balance
total-update zero f i a h = absurd (omega arith)
total-update (suc k) f i a h = elim (Bool-cases (i == k)) [
  | inl e ↦ ground (arith, total-update_past k f i a (ground arith))
  | inr e ↦ ground (arith, total-update k f i a (ground arith))
]

module _ (f : ℕ → Account) (v : ReqValue) (two : v.header.account_id ≢ (transfer_of v).account_id)
    (funds : (transfer_of v).amount ≤ (f v.header.account_id).balance) where
  total-paid :
      (k : ℕ)
      → v.header.account_id < k
      → (transfer_of v).account_id < k
      → total k (paid f v) ≡ total k f
  total-paid k ho hd =
      let o = v.header.account_id in
      let d = (transfer_of v).account_id in
      let amount = (transfer_of v).amount in
      let a : Account = record (f o) { balance = (f o).balance - amount } in
      let b : Account = record (f d) { balance = (f d).balance + amount } in
      let out : update f o a d ≡ f d = ground arith in
      ground (arith, total-update k f o a ho, total-update k (update f o a) d b hd, out)

  paid-WithinLimit :
      (f (transfer_of v).account_id).balance + (transfer_of v).amount ≤ max_balance
      → ((i : ℕ) → WithinLimit (f i))
      → (i : ℕ) → WithinLimit (paid f v i)
  paid-WithinLimit room h i in_use = ground (arith, h i)

-- What a transfer leaves of the money: the same sum over all accounts, and no balance above the
-- limit.
abbrev pub Conserved : (ℕ → Account) → RetCode × ℕ → Sys → Type 0
Conserved f r t =
    (total max_bank_accounts t.accounts ≡ total max_bank_accounts f)
    × ((i : ℕ) → WithinLimit (t.accounts i))

no_error :
    (env : Env) (f : ℕ → Account) (v : ReqValue) (c : RetCode)
    → c ≡ rc_ok
    → IsFirstError (transfer_errors env f v) c
    → (e : RetCode) → transfer_errors env f v e ≡ false
no_error env f v c ok first = elim first [
  | inl (e, none_of) ↦ none_of
  | inr (applies, before) ↦ absurd (ground (arith, ok, applies))
]

TransferEffect-Conserved :
    (env : Env) (f : ℕ → Account) (v : ReqValue) (b : ℕ)
    → IsRequest v
    → ((i : ℕ) → WithinLimit (f i))
    → (r : RetCode × ℕ) (t : Sys) → TransferEffect env f v b r t
    → Conserved f r t
TransferEffect-Conserved env f v b q limits r t (first, documented, released, accounts, reported) =
    elim (Bool-cases (is_ok r.0)) [
      | inr e ↦ rw (accounts, e) (refl, limits)
      | inl e ↦
          let none_of = no_error env f v r.0 (is_ok-eq r.0 e) first in
          let two : v.header.account_id ≢ (transfer_of v).account_id =
            ground (arith, none_of rc_same_id) in
          let funds : (transfer_of v).amount ≤ (f v.header.account_id).balance =
            ground (arith, none_of rc_no_funds) in
          rw (accounts, e)
            (
              total-paid f v two funds max_bank_accounts q.header_id q.other_id,
              paid-WithinLimit f v two funds (ground (arith, none_of rc_too_high)) limits,
            )
    ]

-- When no call fails, `transfer_request` for two numbers of accounts, run by an office that holds no
-- mutex on a bank without a balance above the limit, returns, and then the sum of the 4096 balances
-- is what it was, whatever the code, and still no balance is above the limit.
pub transfer_request_conserves :
    (env : Env) (v : ReqValue) (id : ℤ) (b : ℕ) (s : Sys)
    → IsDigest env
    → IsRequest v
    → AllStored s.accounts
    → ((i : ℕ) → WithinLimit (s.accounts i))
    → s.held ≡ []
    → Ends (Conserved s.accounts) (run (reliable env) (transfer_request v id b) s)
transfer_request_conserves env v id b s d q h limits free =
    Ends-mono {P = TransferEffect env s.accounts v b} {Q = Conserved s.accounts}
      (run (reliable env) (transfer_request v id b) s)
      (transfer_request_effect env v id b s d q h (limits v.header.account_id)
        (limits (transfer_of v).account_id) free)
      (TransferEffect-Conserved env s.accounts v b q limits)
