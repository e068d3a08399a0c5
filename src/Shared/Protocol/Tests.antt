-- ===== src/Shared/Protocol/Tests.antt =====
-- A transfer sent and read.
use home_banking_system.Base.{ℕ, ◌≡◌, refl, true, some, List, [], ◌∷◌, ◌++◌, arith}
use home_banking_system.Base.Int.{pos}
use home_banking_system.Types.{transfer, create_account, TlvRequest, TlvReply, rc_ok, rc_other}
use home_banking_system.Sample.{pays, creates, pipe, pipe-Delivers}
use home_banking_system.Shared.Protocol.Request.{of_int}
use home_banking_system.Shared.Protocol.Bytes.{request_bytes}
use home_banking_system.Shared.Protocol.Delivery.{IsPacked}
use home_banking_system.Shared.Protocol.FifoName.{IsNamed, init_secure_fifo_name_lem}
use home_banking_system.Shared.Protocol.ReplyBytes.{
  reply_bytes, read_reply, reply_size, read_reply-reply_bytes,
}
use home_banking_system.Shared.Protocol.RoundTrip.{Arrives, read_request-request_bytes}

abbrev sent : TlvRequest
sent = record { type = transfer; length = 41; value = pays }

abbrev old : TlvRequest
old = record { type = create_account; length = 62; value = creates }

pays-IsPacked : IsPacked pays
unfolding of_int
pays-IsPacked = record {
  pid = refl;
  account_id = omega arith;
  op_delay_ms = omega arith;
  password = (omega arith, ground arith);
  word0 = omega arith;
  word1 = omega arith;
  text = (omega arith, ground arith);
}

read_request-request_bytes_example :
    (bs : List ℕ) × (request_bytes sent ≡ some bs) × Arrives pipe sent old bs (7 ∷ 8 ∷ [])
read_request-request_bytes_example =
    read_request-request_bytes pipe sent old (7 ∷ 8 ∷ []) pipe-Delivers pays-IsPacked tt refl

init_secure_fifo_name_lem_example : IsNamed 1234 true
init_secure_fifo_name_lem_example = init_secure_fifo_name_lem 1234 (omega arith)

-- The reply to a transfer, with the balance that is left.
abbrev answered : TlvReply
answered = record {
  type = transfer;
  length = 12;
  value = record { header = record { account_id = 1; ret_code = rc_ok }; word = 15 };
}

abbrev old_reply : TlvReply
old_reply = record {
  type = create_account;
  length = 8;
  value = record { header = record { account_id = 7; ret_code = rc_other }; word = 0 };
}

read_reply-reply_bytes_example :
    (bs : List ℕ) × (r' : TlvReply) × (reply_bytes answered ≡ some bs)
    × (read_reply pipe (bs ++ 7 ∷ 8 ∷ []) old_reply ≡ some (pos 0, r', 7 ∷ 8 ∷ []))
    × (r'.type ≡ transfer)
    × (r'.length ≡ 12)
    × (r'.value.header ≡ answered.value.header)
    × (answered.length ≡ 12 → r'.value.word ≡ 15)
unfolding reply_size
read_reply-reply_bytes_example =
    read_reply-reply_bytes pipe answered old_reply (7 ∷ 8 ∷ []) pipe-Delivers tt refl (omega arith)
      (omega arith)
