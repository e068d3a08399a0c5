-- ===== src/User/Parse.antt =====
-- user_f/user_parse.c: the checks of the user's arguments. Messages to stderr are left out. An
-- argument is the list of its bytes.
pub mod Words
pub mod Nul
use home_banking_system.Base.{
  ℕ, zero, suc, Bool, true, false, ◌&&◌, not, Option, none, some, List, [], ◌∷◌, leb, ◌==◌,
  if◌then◌else◌,
}
use home_banking_system.Base.Int.{ℤ, pos, negsuc, eqb_ℤ, ltb_ℤ}
use home_banking_system.Base.Options.{◌>>=◌}
use home_banking_system.Types.{
  OpType, create_account, balance, transfer, shutdown, other, min_balance, max_balance,
  max_op_delay_ms, invalid_balance,
}
use home_banking_system.Shared.Accounts.{valid_account_id, valid_user_account_id, valid_pwd}
use home_banking_system.Shared.Utilities.{str_to_int, str_to_lu}

unfoldable pub valid_balance : ℕ → Bool
valid_balance b = leb min_balance b && leb b max_balance

unfoldable pub valid_delay : ℤ → Bool
valid_delay (pos d) = leb d max_op_delay_ms
valid_delay (negsuc d) = false

unfoldable pub valid_args : ℤ → List ℕ → ℤ → ℤ → Bool
valid_args account_id account_pwd delay operation =
    valid_account_id account_id
    && (valid_pwd account_pwd
        && (valid_delay delay && not (ltb_ℤ operation (pos 0)) && not (ltb_ℤ (pos 3) operation)))

-- `strtok` with a space as its delimiter: the token, and the string from which the next call goes
-- on.
unfoldable pub skip_delim : List ℕ → List ℕ
skip_delim [] = []
skip_delim (c ∷ cs) = if c == 32 then skip_delim cs else c ∷ cs

unfoldable pub token : List ℕ → List ℕ × List ℕ
token [] = ([], [])
token (c ∷ cs) = if c == 32 then ([], cs) else (let (t, rest) = token cs in (c ∷ t, rest))

unfoldable pub strtok : List ℕ → Option (List ℕ × List ℕ)
unfolding skip_delim token
strtok s = elim (skip_delim s) [ [] ↦ none | c ∷ cs ↦ some (token (c ∷ cs)) ]

-- The loop with `k` rounds left, of four; in the last one a token is one too many.
unfoldable pub req_args_loop : ℕ → List ℕ → Option (List (List ℕ))
unfolding strtok
req_args_loop zero s = some []
req_args_loop (suc k) s = elim (strtok s) [
  | none ↦ some []
  | some (t, rest) ↦ if k == 0 then none else do args ← req_args_loop k rest; some (t ∷ args)
]

-- The arguments, or `none` for the result -1.
unfoldable pub parse_req_args : List ℕ → Option (List (List ℕ))
unfolding req_args_loop
parse_req_args s = req_args_loop 4 s

-- The checks of the first two arguments, an account and an amount, for the operations that have
-- them.
unfoldable pub valid_account_and_amount : List ℕ → List ℕ → Bool
valid_account_and_amount id_arg amount_arg =
    let account_id = str_to_int id_arg in
    let amount = str_to_lu amount_arg in
    not (eqb_ℤ account_id (negsuc 0))
    && (not (amount == invalid_balance)
        && (valid_user_account_id account_id && valid_balance amount))

-- `valid_req_args`; the operation is one of the four by `valid_args`.
unfoldable pub valid_req_args : OpType → List (List ℕ) → Bool
unfolding valid_account_and_amount
valid_req_args create_account (id_arg ∷ amount_arg ∷ pwd ∷ []) =
    valid_account_and_amount id_arg amount_arg && valid_pwd pwd
valid_req_args create_account args = false
valid_req_args balance [] = true
valid_req_args balance (a ∷ args) = false
valid_req_args transfer (id_arg ∷ amount_arg ∷ []) = valid_account_and_amount id_arg amount_arg
valid_req_args transfer args = false
valid_req_args shutdown [] = true
valid_req_args shutdown (a ∷ args) = false
valid_req_args (other n) args = true
