-- ===== src/Shared/Protocol/Reply.antt =====
-- `init_reply` and `init_reply_error` of shared/com_protocol.c.
use home_banking_system.Base.{ℕ, ◌+◌, ◌-◌, ◌%◌, ◌^◌}
use home_banking_system.Types.{
  OpType, balance, transfer, shutdown, TlvRequest, RepHeader, RepValue, TlvReply, RetCode, rc_ok,
}
use home_banking_system.Os.{Prog, ret, call, ◌>>=◌, load_active_offices}

-- The size of the packed header.
abbrev pub size_of_rep_header : ℕ
size_of_rep_header = 8

-- The part of the reply that the result and the operation decide: the word, and the size.
unfoldable pub init_reply_word : OpType → RetCode → ℕ → RepValue → Prog (RepValue × ℕ)
init_reply_word transfer code b v = ret (record v { word = b }, size_of_rep_header + 4)
init_reply_word balance rc_ok b v = ret (record v { word = b }, size_of_rep_header + 4)
init_reply_word shutdown rc_ok b v =
    call load_active_offices
      λ n. ret (record v { word = (n + 2 ^ 32 - 1) % 2 ^ 32 }, size_of_rep_header + 4)
init_reply_word type code b v = ret (v, size_of_rep_header)

-- The reply's memory, the request, the result and the balance.
unfoldable pub init_reply : TlvReply → TlvRequest → RetCode → ℕ → Prog TlvReply
unfolding init_reply_word
init_reply reply request code b =
    let header : RepHeader = record {
      account_id = request.value.header.account_id;
      ret_code = code;
    } in
    init_reply_word request.type code b (record reply.value { header = header }) >>= λ made.
    ret (record { type = request.type; length = made.1; value = made.0 })

unfoldable pub init_reply_error : TlvReply → TlvRequest → RetCode → TlvReply
init_reply_error reply request code = record {
  type = request.type;
  length = size_of_rep_header;
  value = record reply.value {
    header = record { account_id = request.value.header.account_id; ret_code = code };
  };
}
