-- ===== src/Shared/Protocol/Request.antt =====
-- `init_request` of shared/com_protocol.c. `none` is undefined behaviour: a string that does not fit,
-- or an argument that is not there.
use home_banking_system.Base.{
  ℕ, ◌+◌, ◌-◌, ◌%◌, ◌^◌, Option, none, some, List, ◌∷◌, leb, if◌then◌else◌, length,
}
use home_banking_system.Base.Int.{ℤ, pos, negsuc}
use home_banking_system.Base.Options.{◌>>=◌}
use home_banking_system.Types.{
  OpType, create_account, transfer, ReqHeader, ReqValue, TlvRequest, max_password_len,
}
use home_banking_system.Shared.Utilities.{str_to_int, str_to_lu}

-- The bits of an `int` as a `uint32_t`.
unfoldable pub of_int : ℤ → ℕ
of_int (pos n) = n % 2 ^ 32
of_int (negsuc n) = 2 ^ 32 - 1 - n % 2 ^ 32

-- The sizes of the packed records.
abbrev pub size_of_header : ℕ
size_of_header = 33

abbrev pub size_of_create : ℕ
size_of_create = 29

abbrev pub size_of_transfer : ℕ
size_of_transfer = 8

-- `strcpy` to the array for a password.
unfoldable pub copy_password : List ℕ → Option (List ℕ)
copy_password pwd = if leb (length pwd) max_password_len then some pwd else none

-- The members of the union that the operation has, and the size of the value.
unfoldable pub init_union : OpType → List (List ℕ) → ReqValue → Option (ReqValue × ℕ)
unfolding of_int copy_password
init_union create_account (id_arg ∷ amount_arg ∷ pwd ∷ args) v = do
  text ← copy_password pwd
  let v' : ReqValue = record v {
    word0 = of_int (str_to_int id_arg);
    word1 = str_to_lu amount_arg % 2 ^ 32;
    text = text;
  }
  some (v', size_of_header + size_of_create)
init_union create_account args v = none
init_union transfer (id_arg ∷ amount_arg ∷ args) v =
    let v' : ReqValue = record v {
      word0 = of_int (str_to_int id_arg);
      word1 = str_to_lu amount_arg % 2 ^ 32;
    } in
    some (v', size_of_header + size_of_transfer)
init_union transfer args v = none
init_union operation args v = some (v, size_of_header)

unfoldable pub init_request :
    TlvRequest → OpType → ℤ → ℤ → List ℕ → ℤ → List (List ℕ) → Option TlvRequest
unfolding init_union
init_request r operation pid account_id pwd op_delay req_args = do
  password ← copy_password pwd
  let header : ReqHeader = record {
    pid = pid;
    account_id = of_int account_id;
    password = password;
    op_delay_ms = of_int op_delay;
  }
  made ← init_union operation req_args (record r.value { header = header })
  some (record { type = operation; length = made.1; value = made.0 })
