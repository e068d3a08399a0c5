-- ===== src/Types.antt =====
-- shared/constants.h and shared/types.h. A `char` array that holds a C string is the list of the
-- bytes before its NUL; a `uint32_t` is a number, kept below 2 ^ 32 by the code that writes it.
mod Constants
mod Enums
pub use Constants.*
pub use Enums.*
use home_banking_system.Base.{ℕ, List, []}
use home_banking_system.Base.Int.{ℤ}

-- `bank_account_t`. `salt` is the memory of the array and of the two bytes of padding behind it,
-- since `gen_salt` writes at the index after the last; `balance` stands behind them.
pub record Account : Type 0 where
  pub account_id : ℕ
  pub hash : List ℕ
  pub salt : List ℕ
  pub balance : ℕ

-- `req_header_t`
pub record ReqHeader : Type 0 where
  pub pid : ℤ
  pub account_id : ℕ
  pub password : List ℕ
  pub op_delay_ms : ℕ

-- `req_create_account_t`
pub record ReqCreateAccount : Type 0 where
  pub account_id : ℕ
  pub balance : ℕ
  pub password : List ℕ

-- `req_transfer_t`
pub record ReqTransfer : Type 0 where
  pub account_id : ℕ
  pub amount : ℕ

-- `req_value_t`. Both members of the packed union begin with two words, the account's number and
-- an amount; `create` goes on with a password. So these are the fields of the union's memory.
pub record ReqValue : Type 0 where
  pub header : ReqHeader
  pub word0 : ℕ
  pub word1 : ℕ
  pub text : List ℕ

abbrev pub create_of : ReqValue → ReqCreateAccount
create_of v = record { account_id = v.word0; balance = v.word1; password = v.text }

abbrev pub transfer_of : ReqValue → ReqTransfer
transfer_of v = record { account_id = v.word0; amount = v.word1 }

-- `tlv_request_t`
pub record TlvRequest : Type 0 where
  pub type : OpType
  pub length : ℕ
  pub value : ReqValue

-- `rep_header_t`
pub record RepHeader : Type 0 where
  pub account_id : ℕ
  pub ret_code : RetCode

-- `rep_value_t`. The three members of the union are one word each, at one address.
pub record RepValue : Type 0 where
  pub header : RepHeader
  pub word : ℕ

-- `tlv_reply_t`
pub record TlvReply : Type 0 where
  pub type : OpType
  pub length : ℕ
  pub value : RepValue
