-- ===== src/User/Arguments.antt =====
-- The start of `main` in user_f/user.c: from the arguments to the request.
pub mod Outcomes
pub mod Proper
pub mod Sendable
pub mod Sent
use home_banking_system.Base.{
  ℕ, suc, ◌+◌, ◌-◌, ◌%◌, ◌^◌, ◌≤◌, ◌<◌, ◌≡◌, Bool, true, false, ◌&&◌, not, Option, none, some, List,
  [], ◌∷◌, leb, ltb, ◌==◌, if◌then◌else◌, length, arith,
}
use home_banking_system.Base.Int.{ℤ, pos, negsuc, eqb_ℤ}
use home_banking_system.Types.{
  OpType, create_account, balance, transfer, shutdown, other, ReqHeader, ReqValue, TlvRequest,
  code_of, rc_other,
}
use home_banking_system.Shared.Utilities.{str_to_int}
use home_banking_system.Shared.Protocol.{init_request}
use home_banking_system.Shared.Protocol.FifoName.{init_secure_fifo_name}
use home_banking_system.User.Parse.{valid_args, parse_req_args, valid_req_args}

-- The request is written, the process ends with a code, or something is undefined.
pub data Prepared : Type 0 where
  request : TlvRequest → Prepared
  ends : ℤ → Prepared
  undefined : Prepared

-- `full_request` is a global, so it begins as zeros.
abbrev pub zeros : TlvRequest
zeros = record {
  type = create_account;
  length = 0;
  value = record {
    header = record { pid = pos 0; account_id = 0; password = []; op_delay_ms = 0 };
    word0 = 0;
    word1 = 0;
    text = [];
  };
}

-- `enum op_type`, from the number.
unfoldable pub op_of : ℤ → OpType
op_of (pos n) =
    if n == 0
    then create_account
    else if n == 1
    then balance
    else if n == 2
    then transfer
    else if n == 3
    then shutdown
    else other n
op_of (negsuc n) = other (2 ^ 32 - 1 - n)

-- What comes behind the parsing of the operation's arguments: their check, the name of the process's
-- FIFO, and the request.
unfoldable pub prepare_args : ℤ → ℤ → List ℕ → ℤ → OpType → List (List ℕ) → Prepared
prepare_args pid account_id pwd op_delay operation req_args =
    if valid_req_args operation req_args
    then elim (init_secure_fifo_name pid) [
      | none ↦ undefined
      | some name ↦ elim (init_request zeros operation pid account_id pwd op_delay req_args) [
        | none ↦ undefined
        | some r ↦ request r
      ]
    ]
    else ends (pos (code_of rc_other))

-- `argv[1]` to `argv[5]`. The opening of the log and `mkfifo`, which do not change the request, are
-- steps of User/Process.
unfoldable pub prepare : ℤ → List ℕ → List ℕ → List ℕ → List ℕ → List ℕ → Prepared
unfolding prepare_args
prepare pid arg1 pwd arg3 arg4 arg5 =
    let account_id = str_to_int arg1 in
    let op_delay = str_to_int arg3 in
    let operation = str_to_int arg4 in
    if eqb_ℤ account_id (negsuc 0)
    then ends (negsuc 0)
    else if eqb_ℤ op_delay (negsuc 0)
    then ends (negsuc 0)
    else if eqb_ℤ operation (negsuc 0)
    then ends (negsuc 0)
    else if not (valid_args account_id pwd op_delay operation)
    then ends (pos (code_of rc_other))
    else elim (parse_req_args arg5) [
      | none ↦ ends (pos (code_of rc_other))
      | some req_args ↦ prepare_args pid account_id pwd op_delay (op_of operation) req_args
    ]
