-- ===== src/Shared/Log/Tests.antt =====
-- Lines of shared/log.c as they are printed.
use home_banking_system.Base.{◌≡◌, refl, some, [], ◌∷◌, length, arith}
use home_banking_system.Base.Int.{pos, negsuc}
use home_banking_system.Types.{
  transfer, balance, op_cond_wait, role_producer, TlvRequest, TlvReply, rc_login_fail,
}
use home_banking_system.Os.{request, reply, sync_mech_sem, delay}
use home_banking_system.Sample.{pays}
use home_banking_system.Shared.Log.Fields.{zero_padded, right, unsigned}
use home_banking_system.Shared.Log.Text.{
  line_text, base_request_info, base_reply_info, delay_parts, sync_mech_sem_parts, used_parts,
  reply_text, reply_tail,
}
use home_banking_system.Shared.Log.Names.{op_type_str, role_letter, sync_mech_str, rc_str}
use home_banking_system.Shared.Protocol.FifoName.{decimal, sprintf_d}
use home_banking_system.Shared.Log.Lines.{line-Written}
use home_banking_system.Shared.Log.Whole.{Written}
use home_banking_system.Shared.Log.Columns.{base_request_info_columns, base_reply_info_columns}

abbrev sent : TlvRequest
sent = record { type = transfer; length = 41; value = pays }

abbrev answer : TlvReply
answer = record {
  type = balance;
  length = 12;
  value = record { header = record { account_id = 3; ret_code = rc_login_fail }; word = 0 };
}

negative_padded : zero_padded 5 (negsuc 11) ≡ b'-' ∷ b'0' ∷ b'0' ∷ b'1' ∷ b'2' ∷ []
unfolding zero_padded decimal
negative_padded = refl

delay_line :
    line_text (pos 9) (delay (pos 2) 10)
    ≡ some (
        b'A' ∷ 32 ∷ b'-' ∷ 32 ∷ b'0' ∷ b'0' ∷ b'0' ∷ b'0' ∷ b'2' ∷ 32 ∷ b'-' ∷ 32 ∷ b'[' ∷ 32 ∷ 32
        ∷ 32 ∷ b'1' ∷ b'0' ∷ 32 ∷ b'm' ∷ b's' ∷ b']' ∷ 10 ∷ [])
unfolding line_text delay_parts zero_padded decimal right unsigned
delay_line = refl

sync_mech_sem_line :
    line_text (pos 9) (sync_mech_sem (pos 1) op_cond_wait role_producer (pos 77) (pos 3))
    ≡ some (
        b'S' ∷ 32 ∷ b'-' ∷ 32 ∷ b'0' ∷ b'0' ∷ b'0' ∷ b'0' ∷ b'1' ∷ 32 ∷ b'-' ∷ 32 ∷ b'P' ∷ b'0'
        ∷ b'0' ∷ b'0' ∷ b'7' ∷ b'7' ∷ 32 ∷ b'C' ∷ b'O' ∷ b'N' ∷ b'D' ∷ b'_' ∷ b'W' ∷ b'A' ∷ b'I'
        ∷ b'T' ∷ 32 ∷ b'[' ∷ b'v' ∷ b'a' ∷ b'l' ∷ b'=' ∷ b'3' ∷ b']' ∷ 10 ∷ [])
unfolding line_text sync_mech_sem_parts used_parts zero_padded decimal role_letter sync_mech_str
    sprintf_d
sync_mech_sem_line = refl

reply_line :
    line_text (pos 9) (reply (pos 1) answer)
    ≡ some (
        b'E' ∷ 32 ∷ b'-' ∷ 32 ∷ b'0' ∷ b'0' ∷ b'0' ∷ b'0' ∷ b'1' ∷ 32 ∷ b'-' ∷ 32 ∷ b'[' ∷ 32 ∷ b'1'
        ∷ b'2' ∷ 32 ∷ b'b' ∷ b'y' ∷ b't' ∷ b'e' ∷ b's' ∷ b']' ∷ 32 ∷ b'0' ∷ b'0' ∷ b'0' ∷ b'3' ∷ 32
        ∷ 32 ∷ b'B' ∷ b'A' ∷ b'L' ∷ b'A' ∷ b'N' ∷ b'C' ∷ b'E' ∷ 32 ∷ 32 ∷ 32 ∷ b'L' ∷ b'O' ∷ b'G'
        ∷ b'I' ∷ b'N' ∷ b'_' ∷ b'F' ∷ b'A' ∷ b'I' ∷ b'L' ∷ 32 ∷ 32 ∷ 32 ∷ 32 ∷ 32 ∷ 32 ∷ 32 ∷ 32
        ∷ 32 ∷ 32 ∷ b'0' ∷ 226 ∷ 130 ∷ 172 ∷ 10 ∷ [])
unfolding line_text reply_text op_type_str base_reply_info zero_padded decimal right sprintf_d
    rc_str reply_tail
reply_line = refl

line-Written_example : Written (pos 9) (request (pos 2) sent)
unfolding op_type_str
line-Written_example =
    line-Written (pos 9) (request (pos 2) sent)
      ((b'T' ∷ b'R' ∷ b'A' ∷ b'N' ∷ b'S' ∷ b'F' ∷ b'E' ∷ b'R' ∷ [], refl), omega arith, omega arith)

base_request_info_columns_example :
    length (
      base_request_info
        (pos 9)
        (pos 2)
        sent
        (b'T' ∷ b'R' ∷ b'A' ∷ b'N' ∷ b'S' ∷ b'F' ∷ b'E' ∷ b'R' ∷ []))
    ≡ 80
unfolding op_type_str
base_request_info_columns_example =
    base_request_info_columns (pos 9) 2 77 sent
      (b'T' ∷ b'R' ∷ b'A' ∷ b'N' ∷ b'S' ∷ b'F' ∷ b'E' ∷ b'R' ∷ []) refl (omega arith) refl
      (omega arith) (omega arith) (omega arith) (omega arith) (omega arith)

base_reply_info_columns_example :
    length
      (base_reply_info (pos 9) (pos 2) answer (b'B' ∷ b'A' ∷ b'L' ∷ b'A' ∷ b'N' ∷ b'C' ∷ b'E' ∷ []))
    ≡ 50
unfolding op_type_str
base_reply_info_columns_example =
    base_reply_info_columns (pos 9) 2 answer (b'B' ∷ b'A' ∷ b'L' ∷ b'A' ∷ b'N' ∷ b'C' ∷ b'E' ∷ [])
      refl (omega arith) (omega arith) (omega arith)
