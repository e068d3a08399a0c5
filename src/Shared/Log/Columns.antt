-- ===== src/Shared/Log/Columns.antt =====
-- The columns of shared/log.c: lines of one kind have one width.
use home_banking_system.Base.{ℕ, ◌+◌, ◌-◌, ◌≤◌, ◌<◌, ◌≡◌, ap, some, List, length, arith}
use home_banking_system.Base.Int.{ℤ, pos, to_int, to_int-pos}
use home_banking_system.Types.{TlvRequest, TlvReply, max_password_len}
use home_banking_system.Shared.Protocol.FifoName.{sprintf_d}
use home_banking_system.Shared.Log.Names.{op_type_str, rc_str}
use home_banking_system.Shared.Log.Fields.{
  zero_padded, right, unsigned, length-joined, length-copies, length-left, zero_padded_fits,
  right_fits, unsigned_fits,
}
use home_banking_system.Shared.Log.Text.{
  base_request_info, request_parts, base_reply_info, reply_parts,
}
use home_banking_system.Shared.Log.Whole.{
  base_request_info_whole, base_reply_info_whole, length-op_type_str, length-rc_str,
}

account_fits : (n : ℕ) → n < 10000 → length (zero_padded 4 (to_int n)) ≡ 4
account_fits n h =
    rw (to_int-pos n (omega arith)) (zero_padded_fits 4 n (omega arith) (omega arith))

size_fits : (n : ℕ) → n < 1000 → length (right 3 (sprintf_d (to_int n))) ≡ 3
unfolding sprintf_d unsigned
size_fits n h =
    rw (to_int-pos n (omega arith))
      (right_fits 3 (sprintf_d (pos n)) (unsigned_fits 3 n (omega arith) (omega arith)))

-- What `logBaseRequestInfo` makes of a request takes 80 columns, whatever the operation and the
-- password, if each number fits its width (thread and process 5 digits, account 4, length 3, delay
-- 5) and the password has at most `MAX_PASSWORD_LEN` bytes.
pub base_request_info_columns :
    (own : ℤ) (i p : ℕ) (r : TlvRequest) (name : List ℕ)
    → op_type_str r.type ≡ some name
    → i < 100000
    → r.value.header.pid ≡ pos p
    → p < 100000
    → r.value.header.account_id < 10000
    → r.length < 1000
    → r.value.header.op_delay_ms < 100000
    → length r.value.header.password ≤ max_password_len
    → length (base_request_info own (pos i) r name) ≡ 80
unfolding request_parts
base_request_info_columns own i p r name e hi hp small ha hl hd hw =
    let n = length r.value.header.password in
    omega (
      arith,
      ap length (base_request_info_whole own (pos i) r name hw (length-op_type_str r.type name e)),
      length-joined (request_parts own (pos i) r name),
      length-op_type_str r.type name e,
      zero_padded_fits 5 i (omega arith) (omega arith),
      size_fits r.length hl,
      ap (λ v. length (zero_padded 5 v)) hp,
      zero_padded_fits 5 p (omega arith) (omega arith),
      account_fits r.value.header.account_id ha,
      length-copies ((max_password_len - n) + (n - max_password_len)) 32,
      right_fits 5 (unsigned r.value.header.op_delay_ms)
          (unsigned_fits 5 r.value.header.op_delay_ms (omega arith) (omega arith)),
      length-left 8 name,
    )

-- What `logBaseReplyInfo` makes of a reply takes 50 columns, whatever the operation and the code, if
-- each number fits its width (thread 5 digits, account 4, length 3).
pub base_reply_info_columns :
    (own : ℤ) (i : ℕ) (r : TlvReply) (name : List ℕ)
    → op_type_str r.type ≡ some name
    → i < 100000
    → r.value.header.account_id < 10000
    → r.length < 1000
    → length (base_reply_info own (pos i) r name) ≡ 50
unfolding reply_parts
base_reply_info_columns own i r name e hi ha hl = omega (
  arith,
  ap length (base_reply_info_whole own (pos i) r name (length-op_type_str r.type name e)),
  length-joined (reply_parts own (pos i) r name),
  zero_padded_fits 5 i (omega arith) (omega arith),
  size_fits r.length hl,
  account_fits r.value.header.account_id ha,
  right_fits 8 name (length-op_type_str r.type name e),
  right_fits 12 (rc_str r.value.header.ret_code) (length-rc_str r.value.header.ret_code),
)
