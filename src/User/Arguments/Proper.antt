-- ===== src/User/Arguments/Proper.antt =====
-- The requests that the start of user_f/user.c makes, against what the server's handlers ask of them.
use home_banking_system.Base.{none, some, Option-cases}
use home_banking_system.Base.{
  ℕ, ◌%◌, ◌^◌, ◌≤◌, ◌<◌, ◌≡◌, refl, sym, subst, true, ◌&&◌, List, [], ◌∷◌, length, arith,
  Bool-cases, inl, inr,
}
use home_banking_system.Base.Int.{ℤ}
use home_banking_system.Types.{
  OpType, create_account, balance, transfer, shutdown, other, ReqValue, min_balance, max_balance,
  min_password_len, max_password_len, max_bank_accounts, create_of, transfer_of,
}
use home_banking_system.Shared.Accounts.{valid_account_id, valid_user_account_id, valid_pwd}
use home_banking_system.Shared.Utilities.{str_to_int, str_to_lu}
use home_banking_system.Shared.Protocol.FifoName.{init_secure_fifo_name}
use home_banking_system.Shared.Protocol.{init_request, init_union, copy_password, of_int}
use home_banking_system.Shared.Protocol.RoundTrip.{size_for}
use home_banking_system.Server.Requests.Checks.{IsRequest}
use home_banking_system.User.Parse.{
  valid_args, valid_balance, valid_req_args, valid_account_and_amount,
}
use home_banking_system.User.Arguments.Outcomes.{prepare_outcomes}
use home_banking_system.User.Arguments.{
  Prepared, request, ends, undefined, op_of, prepare_args, prepare,
}

-- What a proper request says beside its header, by its operation.
abbrev pub IsProperFor : OpType → ReqValue → Type 0
IsProperFor create_account v =
    (0 < (create_of v).account_id)
    × (min_balance ≤ (create_of v).balance)
    × ((create_of v).balance ≤ max_balance)
    × (min_password_len ≤ length (create_of v).password)
    × (length (create_of v).password ≤ max_password_len)
IsProperFor transfer v =
    (0 < (transfer_of v).account_id)
    × (min_balance ≤ (transfer_of v).amount)
    × ((transfer_of v).amount ≤ max_balance)
IsProperFor operation v = Unit

-- The FIFO's name of a process fits into its array.
unfoldable pub HasName : ℤ → Type 0
HasName pid = (name : List ℕ) × (init_secure_fifo_name pid ≡ some name)

-- A proper request by the process `pid`, whose FIFO then has a name, or an end; something undefined
-- only if it has none.
abbrev pub IsProper : ℤ → Prepared → Type 0
IsProper pid (request r) =
    IsRequest r.value
    × IsProperFor r.type r.value
    × (r.length ≡ size_for r.type)
    × (r.value.header.pid ≡ pid)
    × HasName pid
IsProper pid (ends z) = Unit
IsProper pid undefined = HasName pid → ⊥

-- What the check of the two arguments gives.
pub account_and_amount_lem :
    (i a : List ℕ)
    → valid_account_and_amount i a ≡ true
    → (0 < of_int (str_to_int i))
      × (of_int (str_to_int i) < max_bank_accounts)
      × (min_balance ≤ str_to_lu a % 2 ^ 32)
      × (str_to_lu a % 2 ^ 32 ≤ max_balance)
unfolding valid_account_and_amount valid_user_account_id valid_account_id valid_balance of_int
account_and_amount_lem i a h = ground arith

pub account_lem : (z : ℤ) → valid_account_id z ≡ true → of_int z < max_bank_accounts
unfolding valid_account_id of_int
account_lem z h = ground arith

pub copied : (pwd : List ℕ) → valid_pwd pwd ≡ true → copy_password pwd ≡ some pwd
unfolding valid_pwd copy_password
copied pwd h = ground arith

pub fits :
    (pwd : List ℕ)
    → valid_pwd pwd ≡ true
    → (min_password_len ≤ length pwd) × (length pwd ≤ max_password_len)
unfolding valid_pwd
fits pwd h = ground arith

no_name : (pid : ℤ) → init_secure_fifo_name pid ≡ none → HasName pid → ⊥
unfolding HasName
no_name pid e (name, f) = absurd (cc)

has_name : (pid : ℤ) (name : List ℕ) → init_secure_fifo_name pid ≡ some name → HasName pid
unfolding HasName
has_name pid name e = (name, e)

module _ (pid account_id : ℤ) (pwd : List ℕ) (op_delay : ℤ)
    (id_ok : valid_account_id account_id ≡ true) (pwd_ok : valid_pwd pwd ≡ true) where
  -- The header is proper, whatever the rest; the first word is that of an account or zero.
  header_proper :
      (v : ReqValue)
      → v.header.account_id ≡ of_int account_id
      → v.header.password ≡ pwd
      → v.word0 < max_bank_accounts
      → IsRequest v
  header_proper v e p w = record {
    header_id = subst (λ n. n < max_bank_accounts) (sym e) (account_lem account_id id_ok);
    other_id = w;
    password = subst (λ t. length t ≤ max_password_len) (sym p) ((fits pwd pwd_ok).1);
  }

  unnamed-IsProper :
      (operation : OpType) (args : List (List ℕ))
      → init_secure_fifo_name pid ≡ none
      → IsProper pid (prepare_args pid account_id pwd op_delay operation args)
  unfolding prepare_args
  unnamed-IsProper operation args nm = elim (Bool-cases (valid_req_args operation args)) [
    | inl e ↦ rw (e, nm) (no_name pid nm)
    | inr e ↦ rw e tt
  ]

  prepare_args-IsProper :
      (operation : OpType) (args : List (List ℕ)) (name : List ℕ)
      → init_secure_fifo_name pid ≡ some name
      → IsProper pid (prepare_args pid account_id pwd op_delay operation args)
  unfolding prepare_args valid_req_args init_request init_union
  prepare_args-IsProper create_account [] name nm = tt
  prepare_args-IsProper create_account (i ∷ []) name nm = tt
  prepare_args-IsProper create_account (i ∷ a ∷ []) name nm = tt
  prepare_args-IsProper create_account (i ∷ a ∷ p ∷ b ∷ args) name nm = tt
  prepare_args-IsProper create_account (i ∷ a ∷ p ∷ []) name nm =
      elim (Bool-cases (valid_account_and_amount i a && valid_pwd p)) [
        | inr e ↦ rw e tt
        | inl e ↦
            let (over, under, least, most) = account_and_amount_lem i a (ground arith) in
            let (short, long) = fits p (ground arith) in
            rw (e, nm, copied pwd pwd_ok, copied p (ground arith))
              (
                header_proper _ refl refl under,
                (over, least, most, short, long),
                refl,
                refl,
                has_name pid name nm,
              )
      ]
  prepare_args-IsProper transfer [] name nm = tt
  prepare_args-IsProper transfer (i ∷ []) name nm = tt
  prepare_args-IsProper transfer (i ∷ a ∷ b ∷ args) name nm = tt
  prepare_args-IsProper transfer (i ∷ a ∷ []) name nm =
      elim (Bool-cases (valid_account_and_amount i a)) [
        | inr e ↦ rw e tt
        | inl e ↦
            let (over, under, least, most) = account_and_amount_lem i a e in
            rw (e, nm, copied pwd pwd_ok)
              (
                header_proper _ refl refl under,
                (over, least, most),
                refl,
                refl,
                has_name pid name nm,
              )
      ]
  prepare_args-IsProper balance [] name nm =
      rw (nm, copied pwd pwd_ok)
        (header_proper _ refl refl (omega arith), tt, refl, refl, has_name pid name nm)
  prepare_args-IsProper balance (a ∷ args) name nm = tt
  prepare_args-IsProper shutdown [] name nm =
      rw (nm, copied pwd pwd_ok)
        (header_proper _ refl refl (omega arith), tt, refl, refl, has_name pid name nm)
  prepare_args-IsProper shutdown (a ∷ args) name nm = tt
  prepare_args-IsProper (other n) args name nm =
      rw (nm, copied pwd pwd_ok)
        (header_proper _ refl refl (omega arith), tt, refl, refl, has_name pid name nm)

pub valid_args_lem :
    (account_id : ℤ) (pwd : List ℕ) (delay operation : ℤ)
    → valid_args account_id pwd delay operation ≡ true
    → (valid_account_id account_id ≡ true) × (valid_pwd pwd ≡ true)
unfolding valid_args
valid_args_lem account_id pwd delay operation h = ground arith

pub prepare-IsProper :
    (pid : ℤ) (arg1 pwd arg3 arg4 arg5 : List ℕ)
    → IsProper pid (prepare pid arg1 pwd arg3 arg4 arg5)
prepare-IsProper pid arg1 pwd arg3 arg4 arg5 =
    prepare_outcomes (IsProper pid) (λ z. tt) pid arg1 pwd arg3 arg4 arg5
      (λ args e f.
        let (id_ok, pwd_ok) =
          valid_args_lem (str_to_int arg1) pwd (str_to_int arg3) (str_to_int arg4) e in
        let operation = op_of (str_to_int arg4) in
        elim (Option-cases (init_secure_fifo_name pid)) [
          | inl nm ↦
              unnamed-IsProper pid (str_to_int arg1) pwd (str_to_int arg3) id_ok pwd_ok operation
                args nm
          | inr (name, nm) ↦
              prepare_args-IsProper pid (str_to_int arg1) pwd (str_to_int arg3) id_ok pwd_ok
                operation args name nm
        ])
