-- ===== src/User/Arguments/Outcomes.antt =====
-- What holds of every outcome of the start of user_f/user.c.
use home_banking_system.Base.{
  ◌≡◌, true, none, some, List, ℕ, not, if◌then◌else◌, Bool-cases, Option-cases, inl, inr,
}
use home_banking_system.Base.Int.{ℤ, pos, negsuc, eqb_ℤ}
use home_banking_system.Types.{code_of, rc_other}
use home_banking_system.Shared.Utilities.{str_to_int}
use home_banking_system.User.Parse.{valid_args, parse_req_args}
use home_banking_system.User.Arguments.{Prepared, ends, op_of, prepare_args, prepare}

module _ (P : Prepared → Type 0) (ended : (z : ℤ) → P (ends z)) where
  checked_outcomes :
      (pid account_id op_delay operation : ℤ) (pwd arg5 : List ℕ)
      → ((args : List (List ℕ))
          → valid_args account_id pwd op_delay operation ≡ true
          → parse_req_args arg5 ≡ some args
          → P (prepare_args pid account_id pwd op_delay (op_of operation) args))
      → P (
          if not (valid_args account_id pwd op_delay operation)
          then ends (pos (code_of rc_other))
          else elim (parse_req_args arg5) [
            | none ↦ ends (pos (code_of rc_other))
            | some req_args ↦ prepare_args pid account_id pwd op_delay (op_of operation) req_args
          ])
  checked_outcomes pid account_id op_delay operation pwd arg5 go =
      elim (Bool-cases (valid_args account_id pwd op_delay operation)) [
        | inr e ↦ rw e (ended (pos (code_of rc_other)))
        | inl e ↦ rw e (elim (Option-cases (parse_req_args arg5)) [
          | inl f ↦ rw f (ended (pos (code_of rc_other)))
          | inr (args, f) ↦ rw f (go args e f)
        ])
      ]

  -- It is enough to look at the ends and at the requests made of arguments that pass the checks.
  pub prepare_outcomes :
      (pid : ℤ) (arg1 pwd arg3 arg4 arg5 : List ℕ)
      → ((args : List (List ℕ))
          → valid_args (str_to_int arg1) pwd (str_to_int arg3) (str_to_int arg4) ≡ true
          → parse_req_args arg5 ≡ some args
          → P (
              prepare_args pid
                (str_to_int arg1)
                pwd
                (str_to_int arg3)
                (op_of (str_to_int arg4))
                args))
      → P (prepare pid arg1 pwd arg3 arg4 arg5)
  unfolding prepare
  prepare_outcomes pid arg1 pwd arg3 arg4 arg5 go =
      elim (Bool-cases (eqb_ℤ (str_to_int arg1) (negsuc 0))) [
        | inl e ↦ rw e (ended (negsuc 0))
        | inr e ↦ rw e (elim (Bool-cases (eqb_ℤ (str_to_int arg3) (negsuc 0))) [
          | inl e ↦ rw e (ended (negsuc 0))
          | inr e ↦ rw e (elim (Bool-cases (eqb_ℤ (str_to_int arg4) (negsuc 0))) [
            | inl e ↦ rw e (ended (negsuc 0))
            | inr e ↦ rw e (
                checked_outcomes pid (str_to_int arg1) (str_to_int arg3) (str_to_int arg4) pwd arg5
                  go)
          ])
        ])
      ]
