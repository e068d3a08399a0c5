-- ===== src/User/Arguments/Sendable.antt =====
-- The requests that the start of user_f/user.c makes can be kept in their bytes.
use home_banking_system.Base.{some, ◌++◌, lt→ltb}
use home_banking_system.Base.{
  ℕ, zero, suc, ◌^◌, ◌<◌, ◌≡◌, refl, sym, subst, true, ◌&&◌, List, [], ◌∷◌, length, arith,
  Bool-cases, inl, inr,
}
use home_banking_system.Base.Int.{ℤ, pos, negsuc, to_int}
use home_banking_system.Types.{OpType, create_account, balance, transfer, shutdown, other, ReqValue}
use home_banking_system.Shared.Accounts.{valid_account_id, valid_pwd}
use home_banking_system.Shared.Utilities.{str_to_int}
use home_banking_system.Shared.Protocol.FifoName.{
  IsNamed, init_secure_fifo_name_lem, init_secure_fifo_name, user_fifo_path_prefix,
}
use home_banking_system.Shared.Protocol.{init_request, init_union, of_int}
use home_banking_system.Shared.Protocol.Delivery.{IsPacked, NoNul, of_int-bound}
use home_banking_system.Shared.Protocol.RoundTrip.{IsType}
use home_banking_system.User.Parse.{valid_args, valid_req_args, valid_account_and_amount}
use home_banking_system.User.Arguments.{
  Prepared, request, ends, undefined, op_of, prepare_args, prepare,
}
use home_banking_system.User.Arguments.Outcomes.{prepare_outcomes}
use home_banking_system.User.Arguments.Proper.{valid_args_lem, account_and_amount_lem, fits, copied}
use home_banking_system.User.Parse.Nul.{AllNoNul, ArgsNoNul, parse_req_args-NoNul}

-- One of the four operations.
abbrev pub IsKnown : OpType → Type 0
IsKnown (other n) = ⊥
IsKnown _ = Unit

op_of-IsKnown :
    (account_id : ℤ) (pwd : List ℕ) (delay operation : ℤ)
    → valid_args account_id pwd delay operation ≡ true
    → IsKnown (op_of operation)
unfolding valid_args op_of
op_of-IsKnown account_id pwd delay (pos zero) h = tt
op_of-IsKnown account_id pwd delay (pos (suc zero)) h = tt
op_of-IsKnown account_id pwd delay (pos (suc (suc zero))) h = tt
op_of-IsKnown account_id pwd delay (pos (suc (suc (suc zero)))) h = tt
op_of-IsKnown account_id pwd delay (pos (suc (suc (suc (suc n))))) h = absurd (ground arith)
op_of-IsKnown account_id pwd delay (negsuc n) h = absurd (ground arith)

pub IsKnown-IsType : (t : OpType) → IsKnown t → IsType t
IsKnown-IsType create_account h = tt
IsKnown-IsType balance h = tt
IsKnown-IsType transfer h = tt
IsKnown-IsType shutdown h = tt
IsKnown-IsType (other n) h = elim h [ ]

-- What an outcome says that the bytes keep.
abbrev pub IsSendable : ℤ → Prepared → Type 0
IsSendable pid (request r) = IsPacked r.value × IsKnown r.type × (r.value.header.pid ≡ pid)
IsSendable pid (ends z) = Unit
IsSendable pid undefined = Unit

pid_packed : (p : ℕ) → p < 100000 → to_int (of_int (pos p)) ≡ pos p
unfolding of_int
pid_packed p h = ground arith

module _ (p : ℕ) (small : p < 100000) (account_id : ℤ) (pwd : List ℕ) (op_delay : ℤ)
    (id_ok : valid_account_id account_id ≡ true) (pwd_ok : valid_pwd pwd ≡ true) (pure : NoNul pwd)
    (name : List ℕ) (nm : init_secure_fifo_name (pos p) ≡ some name) where
  packed :
      (v : ReqValue)
      → v.header ≡ record {
        pid = pos p;
        account_id = of_int account_id;
        password = pwd;
        op_delay_ms = of_int op_delay;
      }
      → v.word0 < 2 ^ 32
      → v.word1 < 2 ^ 32
      → length v.text < 21
      → NoNul v.text
      → IsPacked v
  packed v h w0 w1 t u = record {
    pid = subst (λ x. to_int (of_int x.pid) ≡ x.pid) (sym h) (pid_packed p small);
    account_id = subst (λ x. x.account_id < 2 ^ 32) (sym h) (of_int-bound account_id);
    op_delay_ms = subst (λ x. x.op_delay_ms < 2 ^ 32) (sym h) (of_int-bound op_delay);
    password =
        subst (λ x. (length x.password < 21) × NoNul x.password) (sym h)
          (omega (arith, (fits pwd pwd_ok).1), pure);
    word0 = w0;
    word1 = w1;
    text = (t, u);
  }

  prepare_args-IsSendable :
      (operation : OpType) (args : List (List ℕ))
      → IsKnown operation
      → AllNoNul args
      → IsSendable (pos p) (prepare_args (pos p) account_id pwd op_delay operation args)
  unfolding prepare_args valid_req_args init_request init_union
  prepare_args-IsSendable create_account [] k h = tt
  prepare_args-IsSendable create_account (i ∷ []) k h = tt
  prepare_args-IsSendable create_account (i ∷ a ∷ []) k h = tt
  prepare_args-IsSendable create_account (i ∷ a ∷ q ∷ b ∷ args) k h = tt
  prepare_args-IsSendable create_account (i ∷ a ∷ q ∷ []) k (hi, (ha, (hq, h))) =
      elim (Bool-cases (valid_account_and_amount i a && valid_pwd q)) [
        | inr e ↦ rw e tt
        | inl e ↦
            let (over, under, least, most) = account_and_amount_lem i a (ground arith) in
            let (short, long) = fits q (ground arith) in
            rw (e, nm, copied pwd pwd_ok, copied q (ground arith))
              (packed _ refl (omega arith) (omega arith) (omega arith) hq, tt, refl)
      ]
  prepare_args-IsSendable transfer [] k h = tt
  prepare_args-IsSendable transfer (i ∷ []) k h = tt
  prepare_args-IsSendable transfer (i ∷ a ∷ b ∷ args) k h = tt
  prepare_args-IsSendable transfer (i ∷ a ∷ []) k h =
      elim (Bool-cases (valid_account_and_amount i a)) [
        | inr e ↦ rw e tt
        | inl e ↦
            let (over, under, least, most) = account_and_amount_lem i a e in
            rw (e, nm, copied pwd pwd_ok)
              (packed _ refl (omega arith) (omega arith) (omega arith) tt, tt, refl)
      ]
  prepare_args-IsSendable balance [] k h =
      rw (nm, copied pwd pwd_ok)
        (packed _ refl (omega arith) (omega arith) (omega arith) tt, tt, refl)
  prepare_args-IsSendable balance (a ∷ args) k h = tt
  prepare_args-IsSendable shutdown [] k h =
      rw (nm, copied pwd pwd_ok)
        (packed _ refl (omega arith) (omega arith) (omega arith) tt, tt, refl)
  prepare_args-IsSendable shutdown (a ∷ args) k h = tt
  prepare_args-IsSendable (other n) args k h = elim k [ ]

fifo_named : (p : ℕ) → p < 100000 → (name : List ℕ) × (init_secure_fifo_name (pos p) ≡ some name)
fifo_named p small =
    let (ds, e, back) =
      subst (IsNamed p) (lt→ltb p 100_000 small) (init_secure_fifo_name_lem p (omega arith)) in
    (user_fifo_path_prefix ++ ds, e)

pub prepare-IsSendable :
    (p : ℕ) (small : p < 100000) (arg1 pwd arg3 arg4 arg5 : List ℕ)
    → NoNul pwd
    → NoNul arg5
    → IsSendable (pos p) (prepare (pos p) arg1 pwd arg3 arg4 arg5)
prepare-IsSendable p small arg1 pwd arg3 arg4 arg5 pure pure5 =
    let (name, nm) = fifo_named p small in
    prepare_outcomes (IsSendable (pos p)) (λ z. tt) (pos p) arg1 pwd arg3 arg4 arg5
      (λ args e f.
        let (id_ok, pwd_ok) =
          valid_args_lem (str_to_int arg1) pwd (str_to_int arg3) (str_to_int arg4) e in
        prepare_args-IsSendable p small (str_to_int arg1) pwd (str_to_int arg3) id_ok pwd_ok pure
          name nm (op_of (str_to_int arg4)) args
          (op_of-IsKnown (str_to_int arg1) pwd (str_to_int arg3) (str_to_int arg4) e)
          (subst ArgsNoNul f (parse_req_args-NoNul arg5 pure5)))
