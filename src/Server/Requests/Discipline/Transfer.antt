-- ===== src/Server/Requests/Discipline/Transfer.antt =====
-- `transfer_request` on every path.
use home_banking_system.Base.{
  ℕ, ◌<◌, ◌≡◌, refl, true, ltb→lt, ==_iff, ==_refl, ne→==, ltb, [], ◌∷◌, arith, ◌==◌, if◌then◌else◌,
  Bool-cases, inl, inr,
}
use home_banking_system.Base.Int.{ℤ, eqb_ℤ, pos, not_zero, to_int, to_int-pos}
use home_banking_system.Types.{
  ReqValue, transfer_of, RetCode, rc_other, rc_login_fail, max_bank_accounts, role_account,
}
use home_banking_system.Os.{accounts_db_mutex, Call, Answer}
use home_banking_system.Os.Run.{is_held}
use home_banking_system.Shared.Accounts.{load_account}
use home_banking_system.Shared.Accounts.Login.{IsStored}
use home_banking_system.Server.Paths.{Follows, Follows-then, Follows-and_then, Follows->>=, Same}
use home_banking_system.Server.Paths.Accounts.{load_account-Follows}
use home_banking_system.Server.Sync.{lock_accounts_db_mutex, unlock_accounts_db_mutex}
use home_banking_system.Server.Sync.Discipline.{
  Taken, lock_accounts_db_mutex-Follows, unlock_accounts_db_mutex-Follows,
}
use home_banking_system.Server.Requests.{
  is_valid_transfer_request, delay_holding, transfer_if_valid, transfer_request, release_two,
  transfer_locked, transfer_to_self, transfer_to_other, min, max,
}
use home_banking_system.Server.Requests.Transfer.{min-max-lt, min-max-gt, min-max-eq}
use home_banking_system.Server.Requests.Checks.{IsRequest}
use home_banking_system.Server.Requests.Discipline.{
  IsFair, logged_in-Follows, delay_holding-Follows, is_valid_transfer_request-Follows,
  transfer_if_valid-Follows, under_account-Follows, release_one-Follows,
}

eqb_ℤ-pos : (i j : ℕ) → eqb_ℤ (pos i) (pos j) ≡ (i == j)
eqb_ℤ-pos i j = ground arith

module _ (Can : (c : Call) → Answer c → Type 0) (fair : IsFair Can) (v : ReqValue) (q : IsRequest v)
    (id : ℤ) where
  release_two-Follows :
      (i j : ℕ) (result : RetCode × ℕ)
      → i < max_bank_accounts
      → j < max_bank_accounts
      → Follows Can
          (Same [])
          (accounts_db_mutex j ∷ accounts_db_mutex i ∷ [])
          (release_two id (pos i) (pos j) result)
  unfolding release_two
  release_two-Follows i j result small small' =
      Follows-then Can (Same []) (accounts_db_mutex j ∷ accounts_db_mutex i ∷ [])
        (accounts_db_mutex i ∷ []) (unlock_accounts_db_mutex id role_account (pos j)) _
        (unlock_accounts_db_mutex-Follows Can fair.unlocks id role_account j
          (accounts_db_mutex i ∷ []) small' (omega (arith, small), tt))
        (λ r. elim (Bool-cases (not_zero r)) [
          | inl e ↦ rw e (
              Follows-then Can (Same []) (accounts_db_mutex i ∷ []) []
                (unlock_accounts_db_mutex id role_account (pos i)) _
                (unlock_accounts_db_mutex-Follows Can fair.unlocks id role_account i [] small tt)
                (λ _. refl))
          | inr e ↦ rw e (release_one-Follows Can fair v q id i [] result small tt)
        ])

  transfer_to_self-Follows :
      (b : ℕ)
      → Follows Can
          (Same [])
          (accounts_db_mutex v.header.account_id ∷ [])
          (transfer_to_self v id (pos v.header.account_id) b)
  unfolding transfer_to_self
  transfer_to_self-Follows b =
      let o = v.header.account_id in
      logged_in-Follows Can fair v q (accounts_db_mutex o ∷ []) (Same []) _ (λ differs.
        elim (Bool-cases (not_zero differs)) [
          | inl e ↦
              rw e (release_one-Follows Can fair v q id o [] (rc_login_fail, b) q.header_id tt)
          | inr e ↦ rw e (
              Follows-and_then Can IsStored (Same []) (accounts_db_mutex o ∷ [])
                (accounts_db_mutex o ∷ []) (load_account o) _
                (load_account-Follows Can fair.loads (accounts_db_mutex o ∷ []) o q.header_id)
                (λ a _.
                  Follows-then Can (Same []) (accounts_db_mutex o ∷ []) (accounts_db_mutex o ∷ [])
                    (is_valid_transfer_request v) _
                    (is_valid_transfer_request-Follows Can fair v q (accounts_db_mutex o ∷ []))
                    (λ code.
                      release_one-Follows Can fair v q id o [] (code, a.balance) q.header_id tt)))
        ])

  -- `i` and `j` are the two accounts' numbers, the smaller first.
  transfer_to_other-Follows :
      (b i j : ℕ)
      → i < j
      → j < max_bank_accounts
      → is_held
          (accounts_db_mutex v.header.account_id)
          (accounts_db_mutex j ∷ accounts_db_mutex i ∷ [])
        ≡ true
      → is_held
          (accounts_db_mutex (transfer_of v).account_id)
          (accounts_db_mutex j ∷ accounts_db_mutex i ∷ [])
        ≡ true
      → Follows Can (Same []) (accounts_db_mutex i ∷ []) (transfer_to_other v id (pos i) (pos j) b)
  unfolding transfer_to_other transfer_locked
  transfer_to_other-Follows b i j lt small from to =
      let both = accounts_db_mutex j ∷ accounts_db_mutex i ∷ [] in
      let small' : i < max_bank_accounts = omega arith in
      Follows->>= Can (Taken (accounts_db_mutex j) (accounts_db_mutex i ∷ [])) (Same [])
        (accounts_db_mutex i ∷ []) (lock_accounts_db_mutex id role_account (pos j)) _
        (lock_accounts_db_mutex-Follows Can fair.unlocks id role_account j
          (accounts_db_mutex i ∷ []) small (omega arith, tt) (omega arith, tt))
        (λ r h taken. elim (Bool-cases (not_zero r)) [
          | inl e ↦
              rw (taken, e)
                (Follows-then Can (Same []) (accounts_db_mutex i ∷ []) []
                  (unlock_accounts_db_mutex id role_account (pos i)) _
                  (unlock_accounts_db_mutex-Follows Can fair.unlocks id role_account i [] small' tt)
                  (λ _. refl))
          | inr e ↦
              rw (taken, e)
                (Follows-then Can (Same []) both both
                  (delay_holding v id (to_int (transfer_of v).account_id)) _
                  (delay_holding-Follows Can fair v q both id (to_int (transfer_of v).account_id)
                    (omega arith, (omega arith, tt)))
                  (λ _. logged_in-Follows Can fair v q both (Same []) _ (λ differs.
                    elim (Bool-cases (not_zero differs)) [
                      | inl e ↦ rw e (release_two-Follows i j (rc_login_fail, b) small' small)
                      | inr e ↦ rw e (
                          Follows-then Can (Same []) both both (transfer_if_valid v) _
                            (transfer_if_valid-Follows Can fair v q both from to)
                            (λ result. release_two-Follows i j result small' small))
                    ])))
        ])

  begin-Follows :
      (b i j : ℕ)
      → (min (pos v.header.account_id) (pos (transfer_of v).account_id) ≡ pos i)
        × (max (pos v.header.account_id) (pos (transfer_of v).account_id) ≡ pos j)
      → i < max_bank_accounts
      → Follows Can (Same []) (accounts_db_mutex i ∷ []) (
          if i == j
          then transfer_to_self v id (pos i) b
          else transfer_to_other v id (pos i) (pos j) b)
      → Follows Can (Same []) [] (transfer_request v id b)
  unfolding transfer_request
  begin-Follows b i j (is_min, is_max) small p =
      let o = v.header.account_id in
      rw
        (
          to_int-pos o (omega (arith, q.header_id)),
          to_int-pos (transfer_of v).account_id (omega (arith, q.other_id)),
          is_min,
          is_max,
          eqb_ℤ-pos i j,
        )
        (under_account-Follows Can fair v q id i (rc_other, b) _ small
          (Follows-then Can (Same []) (accounts_db_mutex i ∷ []) (accounts_db_mutex i ∷ [])
            (delay_holding v id (pos o)) _
            (delay_holding-Follows Can fair v q (accounts_db_mutex i ∷ []) id (pos o)
              (omega (arith, small), tt))
            (λ _. p)))

-- On every path of `transfer_request` for two numbers of accounts that starts with no mutex held,
-- whatever other threads write meanwhile and whichever calls fail: each mutex that is taken has a
-- higher rank than all that are held (accounts by their numbers, the log's last), so none is taken
-- twice and no circle of waiting threads can close; a mutex is given back only while it is held; an
-- account is written only under its own mutex, with arrays of the right sizes; nothing on the way is
-- undefined; and the path ends with no mutex held. This relies on a held mutex's being given back
-- successfully, and on what is loaded having arrays of the right sizes and, if it is in use, a salt
-- that ends within its array.
pub transfer_request-Follows :
    (Can : (c : Call) → Answer c → Type 0) (v : ReqValue) (id : ℤ) (b : ℕ)
    → IsFair Can
    → IsRequest v
    → Follows Can (Same []) [] (transfer_request v id b)
transfer_request-Follows Can v id b fair q =
    let o = v.header.account_id in
    let d = (transfer_of v).account_id in
    elim (Bool-cases (o == d)) [
      | inl e ↦
          begin-Follows Can fair v q id b o o (min-max-eq o d ((==_iff o d).0 e)) q.header_id
            (rw (==_refl o) (transfer_to_self-Follows Can fair v q id b))
      | inr e ↦ elim (Bool-cases (ltb o d)) [
        | inl l ↦ begin-Follows Can fair v q id b o d (min-max-lt o d (ltb→lt o d l)) q.header_id (
            rw e (
              transfer_to_other-Follows Can fair v q id b o d (ltb→lt o d l) q.other_id
                (ground arith) (ground arith)))
        | inr l ↦ begin-Follows Can fair v q id b d o (min-max-gt o d (ground arith)) q.other_id (
            rw (ne→== d o (ground arith)) (
              transfer_to_other-Follows Can fair v q id b d o (ground arith) q.header_id
                (ground arith) (ground arith)))
      ]
    ]
