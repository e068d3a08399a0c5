-- ===== src/Shared/Protocol/Pipe.antt =====
-- `read_request` of shared/com_protocol.c as the server calls it: its three reads of a descriptor, into
-- memory that may be NULL.
use home_banking_system.Base.{ℕ, not, Option, none, some, leb, if◌then◌else◌}
use home_banking_system.Base.Int.{ℤ, pos, is_pos}
use home_banking_system.Types.{OpType, TlvRequest}
use home_banking_system.Os.{
  Prog, ret, undefined, ◌>>=◌, do_call, read_type, read_length, read_value,
}

-- The size of `value` in a `tlv_request_t`.
abbrev pub value_size : ℕ
value_size = 62

-- What comes behind the two first reads: nothing checks that there is memory, or that so many bytes
-- fit into the value. To ask `read` for more than that is undefined here, however many bytes come.
unfoldable pub read_value_into : ℤ → OpType → ℕ → Option TlvRequest → Prog (ℤ × Option TlvRequest)
read_value_into fd type length none = undefined
read_value_into fd type length (some m) =
    if leb length value_size
    then (do
      got ← do_call (read_value fd length)
      if is_pos got.0
          then ret (pos 0, some (record { type = type; length = length; value = got.1 }))
          else ret (got.0, some (record m { type = type; length = length })))
    else undefined

-- `read_request` of shared/com_protocol.c on the memory that `malloc` gave: its result, and what the
-- memory holds then.
unfoldable pub read_request_into : ℤ → Option TlvRequest → Prog (ℤ × Option TlvRequest)
unfolding read_value_into
read_request_into fd memory = do
  type ← do_call (read_type fd)
  if not (is_pos type.0) then ret (type.0, memory) else do
    length ← do_call (read_length fd)
    if not (is_pos length.0)
        then ret (length.0, memory)
        else read_value_into fd type.1 length.1 memory
