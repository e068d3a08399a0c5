-- ===== src/Shared/Log/Text.antt =====
-- The lines of shared/log.c: what each function formats, and `atomicPrintf`. A `uint32_t` that is
-- printed with `%d` shows as an `int`.
use home_banking_system.Base.{
  ℕ, ◌+◌, ◌-◌, Bool, true, false, Option, none, some, List, [], ◌∷◌, length, take, if◌then◌else◌,
}
use home_banking_system.Base.Int.{ℤ, pos, eqb_ℤ, to_int}
use home_banking_system.Base.Options.{◌>>=◌}
use home_banking_system.Types.{
  Account, TlvRequest, TlvReply, create_of, transfer_of, OpType, create_account, balance, transfer,
  shutdown, other, SyncMechOp, SyncRole, role_account, max_password_len, salt_len, hash_len,
  width_id, width_delay, width_account, width_balance, width_op, width_rc, width_hash,
  width_tlv_len, width_startend,
}
use home_banking_system.Os.{
  Line, request, reply, office, account_creation, sync_mech, sync_mech_sem, delay, sync_delay,
}
use home_banking_system.Shared.Protocol.Bytes.{drop}
use home_banking_system.Shared.Protocol.FifoName.{sprintf_d}
use home_banking_system.Shared.Log.Names.{op_type_str, rc_str, sync_mech_str, role_letter}
use home_banking_system.Shared.Log.Fields.{
  copies, zero_padded, right, left, unsigned, unsigned_long, string_in, joined,
}

-- `PIPE_BUF` of limits.h.
abbrev pub pipe_buf : ℕ
pipe_buf = 4096

-- `atomicPrintf` of a formatted text, which has no NUL: what is written, and what it returns.
unfoldable pub atomic_printf : List ℕ → List ℕ × ℤ
atomic_printf text = (take (pipe_buf - 1) text, pos (length text))

-- The parts that `logBaseRequestInfo` formats, `name` being that of the operation. Padding of a
-- negative width is as wide, on the other side of the empty string.
unfoldable pub request_parts : ℤ → ℤ → TlvRequest → List ℕ → List (List ℕ)
request_parts own id r name =
    let h = r.value.header in
    let n = length h.password in
    ((if eqb_ℤ id own then b'E' else b'R') ∷ [])
    ∷ (32 ∷ b'-' ∷ 32 ∷ [])
    ∷ zero_padded width_id id
    ∷ (32 ∷ b'-' ∷ 32 ∷ b'[' ∷ [])
    ∷ right width_tlv_len (sprintf_d (to_int r.length))
    ∷ (32 ∷ b'b' ∷ b'y' ∷ b't' ∷ b'e' ∷ b's' ∷ b']' ∷ 32 ∷ [])
    ∷ zero_padded width_id h.pid
    ∷ (32 ∷ b'(' ∷ [])
    ∷ zero_padded width_account (to_int h.account_id)
    ∷ (b',' ∷ 32 ∷ 34 ∷ [])
    ∷ h.password
    ∷ (34 ∷ b')' ∷ [])
    ∷ copies ((max_password_len - n) + (n - max_password_len)) 32
    ∷ (32 ∷ b'[' ∷ [])
    ∷ right width_delay (unsigned h.op_delay_ms)
    ∷ (32 ∷ b'm' ∷ b's' ∷ b']' ∷ 32 ∷ [])
    ∷ left width_op name
    ∷ []

-- `logBaseRequestInfo` in a process whose number is `own`.
unfoldable pub base_request_info : ℤ → ℤ → TlvRequest → List ℕ → List ℕ
unfolding request_parts
base_request_info own id r name = take (pipe_buf - 1) (joined (request_parts own id r name))

-- The parts that `logBaseReplyInfo` formats.
unfoldable pub reply_parts : ℤ → ℤ → TlvReply → List ℕ → List (List ℕ)
reply_parts own id r name =
    ((if eqb_ℤ id own then b'R' else b'E') ∷ [])
    ∷ (32 ∷ b'-' ∷ 32 ∷ [])
    ∷ zero_padded width_id id
    ∷ (32 ∷ b'-' ∷ 32 ∷ b'[' ∷ [])
    ∷ right width_tlv_len (sprintf_d (to_int r.length))
    ∷ (32 ∷ b'b' ∷ b'y' ∷ b't' ∷ b'e' ∷ b's' ∷ b']' ∷ 32 ∷ [])
    ∷ zero_padded width_account (to_int r.value.header.account_id)
    ∷ (32 ∷ [])
    ∷ right width_op name
    ∷ (32 ∷ [])
    ∷ right width_rc (rc_str r.value.header.ret_code)
    ∷ []

unfoldable pub base_reply_info : ℤ → ℤ → TlvReply → List ℕ → List ℕ
unfolding reply_parts
base_reply_info own id r name = take (pipe_buf - 1) (joined (reply_parts own id r name))

-- The `switch` of `logRequest` on the type, behind the base.
unfoldable pub request_tail : OpType → TlvRequest → List (List ℕ)
request_tail create_account r =
    (32 ∷ [])
    ∷ zero_padded width_account (to_int (create_of r.value).account_id)
    ∷ (32 ∷ [])
    ∷ right width_balance (unsigned (create_of r.value).balance)
    ∷ (226 ∷ 130 ∷ 172 ∷ 32 ∷ 34 ∷ [])
    ∷ (create_of r.value).password
    ∷ (34 ∷ 10 ∷ [])
    ∷ []
request_tail balance r = (10 ∷ []) ∷ []
request_tail transfer r =
    (32 ∷ [])
    ∷ zero_padded width_account (to_int (transfer_of r.value).account_id)
    ∷ (32 ∷ [])
    ∷ right width_balance (unsigned (transfer_of r.value).amount)
    ∷ (226 ∷ 130 ∷ 172 ∷ 10 ∷ [])
    ∷ []
request_tail shutdown r = (10 ∷ []) ∷ []
request_tail (other n) r = []

-- A text with the name of an operation, if there is one.
abbrev pub named : (List ℕ → List ℕ) → Option (List ℕ) → Option (List ℕ)
named f none = none
named f (some name) = some (f name)

-- The text of `logRequest`; a type that is no operation has none.
unfoldable pub request_text : ℤ → ℤ → TlvRequest → Option (List ℕ)
request_text own id r =
    named (λ name. joined (base_request_info own id r name ∷ request_tail r.type r))
      (op_type_str r.type)

-- The `switch` of `logReply` on the type, behind the base.
unfoldable pub reply_tail : OpType → TlvReply → List (List ℕ)
reply_tail create_account r = (10 ∷ []) ∷ []
reply_tail balance r =
    (32 ∷ [])
    ∷ right width_balance (sprintf_d (to_int r.value.word))
    ∷ (226 ∷ 130 ∷ 172 ∷ 10 ∷ [])
    ∷ []
reply_tail transfer r =
    (32 ∷ [])
    ∷ right width_balance (sprintf_d (to_int r.value.word))
    ∷ (226 ∷ 130 ∷ 172 ∷ 10 ∷ [])
    ∷ []
reply_tail shutdown r = (32 ∷ []) ∷ sprintf_d (to_int r.value.word) ∷ (10 ∷ []) ∷ []
reply_tail (other n) r = []

unfoldable pub reply_text : ℤ → ℤ → TlvReply → Option (List ℕ)
reply_text own id r =
    named (λ name. joined (base_reply_info own id r name ∷ reply_tail r.type r))
      (op_type_str r.type)

unfoldable pub office_word : Bool → List ℕ
office_word true = b'O' ∷ b'P' ∷ b'E' ∷ b'N' ∷ []
office_word false = b'C' ∷ b'L' ∷ b'O' ∷ b'S' ∷ b'E' ∷ []

-- `logBankOfficeInfo`
unfoldable pub office_parts : ℤ → ℤ → Bool → List (List ℕ)
office_parts id tid opens =
    (b'I' ∷ 32 ∷ b'-' ∷ 32 ∷ [])
    ∷ zero_padded width_id id
    ∷ (32 ∷ b'-' ∷ 32 ∷ [])
    ∷ left width_startend (office_word opens)
    ∷ (32 ∷ [])
    ∷ unsigned_long tid
    ∷ (10 ∷ [])
    ∷ []

-- `logAccountCreation` shows the salt and the last digits of the hash.
unfoldable pub account_parts : ℤ → Account → List ℕ → List ℕ → List (List ℕ)
account_parts id a salt digits =
    (b'I' ∷ 32 ∷ b'-' ∷ 32 ∷ [])
    ∷ zero_padded width_id id
    ∷ (32 ∷ b'-' ∷ 32 ∷ [])
    ∷ zero_padded width_account (to_int a.account_id)
    ∷ (32 ∷ [])
    ∷ right salt_len salt
    ∷ (32 ∷ b'.' ∷ b'.' ∷ b'.' ∷ [])
    ∷ right width_hash digits
    ∷ (10 ∷ [])
    ∷ []

-- `none` stands for a string that does not end within its memory.
unfoldable pub account_text : ℤ → Account → Option (List ℕ)
account_text id a = do
  salt ← string_in a.salt
  digits ← string_in (drop (hash_len - width_hash) a.hash)
  some (joined (account_parts id a salt digits))

-- A thread, what it uses, and how: the formats of `logSyncMech`, `logSyncMechSem` and
-- `logSyncDelay`.
unfoldable pub used_parts : ℕ → ℤ → SyncRole → ℤ → List (List ℕ) → List (List ℕ)
used_parts letter id role sid rest =
    (letter ∷ [])
    ∷ (32 ∷ b'-' ∷ 32 ∷ [])
    ∷ zero_padded width_id id
    ∷ (32 ∷ b'-' ∷ 32 ∷ [])
    ∷ (role_letter role ∷ [])
    ∷ zero_padded width_id sid
    ∷ (32 ∷ [])
    ∷ rest

unfoldable pub sync_mech_parts : ℤ → SyncMechOp → SyncRole → ℤ → List (List ℕ)
sync_mech_parts id smo role sid = used_parts b'S' id role sid (sync_mech_str smo ∷ (10 ∷ []) ∷ [])

unfoldable pub sync_mech_sem_parts : ℤ → SyncMechOp → SyncRole → ℤ → ℤ → List (List ℕ)
sync_mech_sem_parts id smo role sid val = used_parts b'S' id role sid (
    sync_mech_str smo
    ∷ (32 ∷ b'[' ∷ b'v' ∷ b'a' ∷ b'l' ∷ b'=' ∷ [])
    ∷ sprintf_d val
    ∷ (b']' ∷ 10 ∷ [])
    ∷ [])

unfoldable pub delay_parts : ℤ → ℕ → List (List ℕ)
delay_parts id delay_ms =
    (b'A' ∷ 32 ∷ b'-' ∷ 32 ∷ [])
    ∷ zero_padded width_id id
    ∷ (32 ∷ b'-' ∷ 32 ∷ b'[' ∷ [])
    ∷ right width_delay (unsigned delay_ms)
    ∷ (32 ∷ b'm' ∷ b's' ∷ b']' ∷ 10 ∷ [])
    ∷ []

unfoldable pub sync_delay_parts : ℤ → ℤ → ℕ → List (List ℕ)
sync_delay_parts id sid delay_ms =
    used_parts b'A' id role_account sid (
      (b'[' ∷ [])
      ∷ right width_delay (unsigned delay_ms)
      ∷ (32 ∷ b'm' ∷ b's' ∷ b']' ∷ 10 ∷ [])
      ∷ [])

-- The text of a line, in the process `own`.
unfoldable pub line_text : ℤ → Line → Option (List ℕ)
line_text own (request id r) = request_text own id r
line_text own (reply id r) = reply_text own id r
line_text own (office id tid opens) = some (joined (office_parts id tid opens))
line_text own (account_creation id a) = account_text id a
line_text own (sync_mech id smo role sid) = some (joined (sync_mech_parts id smo role sid))
line_text own (sync_mech_sem id smo role sid val) =
    some (joined (sync_mech_sem_parts id smo role sid val))
line_text own (delay id delay_ms) = some (joined (delay_parts id delay_ms))
line_text own (sync_delay id sid delay_ms) = some (joined (sync_delay_parts id sid delay_ms))
