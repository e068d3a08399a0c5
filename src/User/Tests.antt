-- ===== src/User/Tests.antt =====
-- The user's arguments: runs, and the theorem there.
use home_banking_system.Shared.Utilities.ReadBack.{str_to_int-sprintf_d}
use home_banking_system.Shared.Protocol.FifoName.{sprintf_d, init_secure_fifo_name}
use home_banking_system.User.Parse.{valid_args, valid_delay, valid_req_args, valid_balance}
use home_banking_system.Shared.Accounts.{valid_account_id, valid_pwd, valid_user_account_id}
use home_banking_system.Shared.Utilities.{str_to_lu}
use home_banking_system.User.Arguments.{op_of}
use home_banking_system.Shared.Protocol.{init_request}
use home_banking_system.Types.{TlvRequest, transfer, create_account}
use home_banking_system.Sample.{creates, pipe, pipe-Delivers}
use home_banking_system.User.Arguments.Sent.{Serves, prepare-Serves}
use home_banking_system.Base.{arith, ◌≡◌, refl, some, [], ◌∷◌}
use home_banking_system.Base.Int.{pos, negsuc}
use home_banking_system.Shared.Utilities.{str_to_int}
use home_banking_system.User.Parse.{parse_req_args}
use home_banking_system.User.Parse.Words.{parse_req_args-join_spaces}
use home_banking_system.User.Arguments.{prepare}

-- " -12" and "12x".
str_to_int_signed : str_to_int (32 ∷ b'-' ∷ b'1' ∷ b'2' ∷ []) ≡ negsuc 11
unfolding str_to_int
str_to_int_signed = refl

str_to_int_trailing : str_to_int (b'1' ∷ b'2' ∷ b'x' ∷ []) ≡ negsuc 0
unfolding str_to_int
str_to_int_trailing = refl

-- "4294967297", 2 ^ 32 + 1, is read as 1.
str_to_int_wraps :
    str_to_int (b'4' ∷ b'2' ∷ b'9' ∷ b'4' ∷ b'9' ∷ b'6' ∷ b'7' ∷ b'2' ∷ b'9' ∷ b'7' ∷ []) ≡ pos 1
unfolding str_to_int
str_to_int_wraps = refl

parse_req_args_runs :
    parse_req_args (b'2' ∷ 32 ∷ 32 ∷ b'1' ∷ b'0' ∷ 32 ∷ [])
    ≡ some ((b'2' ∷ []) ∷ (b'1' ∷ b'0' ∷ []) ∷ [])
unfolding parse_req_args
parse_req_args_runs = refl

parse_req_args-join_spaces_example :
    parse_req_args (b'2' ∷ 32 ∷ b'1' ∷ b'0' ∷ []) ≡ some ((b'2' ∷ []) ∷ (b'1' ∷ b'0' ∷ []) ∷ [])
parse_req_args-join_spaces_example =
    parse_req_args-join_spaces ((b'2' ∷ []) ∷ (b'1' ∷ b'0' ∷ []) ∷ []) (ground arith)

-- The request of the same arguments, and one that the server read before.
abbrev asked : TlvRequest
asked = record {
  type = transfer;
  length = 41;
  value = record {
    header = record {
      pid = pos 4242;
      account_id = 1;
      password = b't' ∷ b'o' ∷ b'p' ∷ b's' ∷ b'e' ∷ b'c' ∷ b'r' ∷ b't' ∷ [];
      op_delay_ms = 0;
    };
    word0 = 2;
    word1 = 10;
    text = [];
  };
}

abbrev old : TlvRequest
old = record { type = create_account; length = 62; value = creates }

prepare-Serves_example : Serves pipe asked old (7 ∷ 8 ∷ [])
unfolding prepare str_to_int valid_args valid_account_id valid_pwd valid_delay parse_req_args
    valid_req_args op_of str_to_lu valid_user_account_id valid_balance init_request
    init_secure_fifo_name
prepare-Serves_example =
    prepare-Serves pipe asked old (7 ∷ 8 ∷ []) 4242 (b'1' ∷ [])
      (b't' ∷ b'o' ∷ b'p' ∷ b's' ∷ b'e' ∷ b'c' ∷ b'r' ∷ b't' ∷ []) (b'0' ∷ []) (b'2' ∷ [])
      (b'2' ∷ 32 ∷ b'1' ∷ b'0' ∷ []) pipe-Delivers (omega arith) (ground arith) (ground arith) refl

str_to_int-sprintf_d_example : str_to_int (sprintf_d (negsuc 41)) ≡ negsuc 41
str_to_int-sprintf_d_example = str_to_int-sprintf_d (negsuc 41) (omega arith)
