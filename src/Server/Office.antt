-- ===== src/Server/Office.antt =====
-- `balconies` of server_f/server.c: what each office's thread does.
pub mod Queue
pub mod Steps
pub mod Replies
pub mod Discipline
use home_banking_system.Base.{
  ℕ, zero, suc, Bool, true, false, ◌&&◌, not, Option, none, some, List, length, if◌then◌else◌,
}
use home_banking_system.Base.Int.{ℤ, pos, not_zero, is_neg, eqb_ℤ}
use home_banking_system.Types.{
  OpType, create_account, balance, transfer, shutdown, other, ReqValue, TlvRequest, TlvReply,
  RetCode, rc_usr_down, rc_other, code_of, role_consumer, unknown_pid,
}
use home_banking_system.Os.{
  Prog, ret, exits, undefined, ◌>>=◌, ◌>>◌, do_call, load_balcony_open, queue_front, queue_pop,
  is_queue_empty, open_fifo, write, close,
}
use home_banking_system.Shared.Protocol.{init_reply}
use home_banking_system.Shared.Protocol.ReplyBytes.{reply_bytes}
use home_banking_system.Shared.Protocol.FifoName.{init_secure_fifo_name}
use home_banking_system.Server.SyncLog.{
  sync_log_request, sync_log_reply, sync_log_bank_office_open, sync_log_bank_office_close,
}
use home_banking_system.Server.Sync.{
  stdout_fileno, wait_sem_full, post_sem_empty, lock_queue_mutex, unlock_queue_mutex,
}
use home_banking_system.Server.Offices.{increase_active_offices, decrease_active_offices}
use home_banking_system.Server.Requests.{
  is_ok, create_request, transfer_request, balance_request, shutdown_request,
}

abbrev pub unknown : ℤ
unknown = pos unknown_pid

abbrev pub exit_other : ℤ
exit_other = pos (code_of rc_other)

-- `if ((ret = p) != 0) exit(RC_OTHER);`, and then the rest.
abbrev pub or_exit : {A : Type 0} → Prog ℤ → Prog A → Prog A
or_exit p rest = do r ← p; if not_zero r then exits exit_other else rest

-- The wait for a request, and whether the office is to leave.
unfoldable pub await_request : ℤ → Prog Bool
await_request id = or_exit (wait_sem_full id unknown) (
    or_exit (lock_queue_mutex id role_consumer unknown) do
      queue_empty ← do_call is_queue_empty
      or_exit (unlock_queue_mutex id role_consumer unknown) do
        balcony_open ← do_call load_balcony_open
        ret (not balcony_open && not_zero queue_empty))

-- From the front of the queue, with its mutex held. The result of `queue_pop` is only reported.
unfoldable pub take_first : ℤ → Option TlvRequest → Prog TlvRequest
take_first id none = exits exit_other
take_first id (some r) = do
  do_call queue_pop
  or_exit (unlock_queue_mutex id role_consumer r.value.header.pid)
      (or_exit (post_sem_empty id r.value.header.pid) (ret r))

unfoldable pub take_request : ℤ → Prog TlvRequest
unfolding take_first
take_request id =
    or_exit (lock_queue_mutex id role_consumer unknown)
      do first_request ← do_call queue_front; take_first id first_request

-- The `switch`. `req_ret` stands outside of the loop, so a request of no known type is answered with
-- the code of the request before it; for the first, the variable was never written. `final_balance`
-- is what `balance` holds before.
unfoldable pub handle_type : ℤ → ℤ → ℤ → Option RetCode → ℕ → OpType → ReqValue → Prog (RetCode × ℕ)
handle_type srv dummy id req_ret final_balance create_account v = do
  code ← create_request v id
  ret (code, final_balance)
handle_type srv dummy id req_ret final_balance transfer v = transfer_request v id final_balance
handle_type srv dummy id req_ret final_balance balance v = balance_request v id final_balance
handle_type srv dummy id req_ret final_balance shutdown v = do
  code ← shutdown_request v id srv dummy
  ret (code, final_balance)
handle_type srv dummy id none final_balance (other n) v = undefined
handle_type srv dummy id (some code) final_balance (other n) v = ret (code, final_balance)

unfoldable pub handle : ℤ → ℤ → ℤ → Option RetCode → ℕ → TlvRequest → Prog (RetCode × ℕ)
unfolding handle_type
handle srv dummy id req_ret final_balance r =
    handle_type srv dummy id req_ret final_balance r.type r.value

-- The code that the reply gets when the user's FIFO is open, or not.
unfoldable pub code_for : ℤ → RetCode → RetCode
code_for user_fifo req_ret =
    if is_neg user_fifo then (if is_ok req_ret then req_ret else rc_usr_down) else req_ret

-- The reply to the user, if it is logged and the user's FIFO is open. Failures are only reported.
unfoldable pub send_reply : ℤ → TlvReply → Prog (Unit {0})
send_reply user_fifo reply = if is_neg user_fifo then ret tt else elim (reply_bytes reply) [
  | none ↦ undefined
  | some bytes ↦ do do_call (write user_fifo bytes); do_call (close user_fifo); ret tt
]

-- Once the user's FIFO has been opened, or not.
unfoldable pub reply_on : ℤ → TlvReply → TlvRequest → RetCode × ℕ → ℤ → Prog RetCode
unfolding send_reply code_for
reply_on id memory r result user_fifo = do
  let req_ret = code_for user_fifo result.0
  reply ← init_reply memory r req_ret result.1
  logged ← sync_log_reply stdout_fileno id reply
  if is_neg logged then ret tt else send_reply user_fifo reply
  ret req_ret

-- `memory` is what `request_reply` holds before; a name that does not fit its array is undefined.
unfoldable pub answer_to : ℤ → TlvReply → TlvRequest → RetCode × ℕ → Option (List ℕ) → Prog RetCode
unfolding reply_on
answer_to id memory r result none = undefined
answer_to id memory r result (some name) = do
  user_fifo ← do_call (open_fifo name)
  reply_on id memory r result user_fifo

unfoldable pub answer : ℤ → TlvReply → TlvRequest → RetCode × ℕ → Prog RetCode
unfolding answer_to
answer id memory r result = answer_to id memory r result (init_secure_fifo_name r.value.header.pid)

-- How a round of the loop ends: with `break`, or with the code of the request that was served.
pub data Round : Type 0 where
  leaves : Round
  serves : RetCode → Round

unfoldable pub serve : ℤ → ℤ → ℤ → TlvReply → ℕ → Option RetCode → Prog Round
unfolding take_request handle answer
serve srv dummy id memory final_balance req_ret = do
  r ← take_request id
  sync_log_request stdout_fileno id r
  result ← handle srv dummy id req_ret final_balance r
  code ← answer id memory r result
  or_exit decrease_active_offices (ret (serves code))

unfoldable pub office_round : ℤ → ℤ → ℤ → TlvReply → ℕ → Option RetCode → Prog Round
unfolding await_request serve
office_round srv dummy id memory final_balance req_ret = do
  over ← await_request id
  if over
      then ret leaves
      else or_exit increase_active_offices (serve srv dummy id memory final_balance req_ret)

-- At most `k` rounds of the loop, and whether the office has left it by then.
unfoldable pub rounds : ℤ → ℤ → ℤ → TlvReply → ℕ → ℕ → Option RetCode → Prog Bool
unfolding office_round
rounds srv dummy id memory final_balance zero req_ret = ret false
rounds srv dummy id memory final_balance (suc k) req_ret = do
  round ← office_round srv dummy id memory final_balance req_ret
  elim round [
    | leaves ↦ ret true
    | serves code ↦ rounds srv dummy id memory final_balance k (some code)
  ]

-- Whether the thread has ended after at most `k` rounds.
unfoldable pub balconies : ℤ → ℤ → ℤ → ℤ → TlvReply → ℕ → ℕ → Prog Bool
unfolding rounds
balconies srv dummy id tid memory final_balance k = do
  sync_log_bank_office_open stdout_fileno id tid
  left ← rounds srv dummy id memory final_balance k none
  if left then (do sync_log_bank_office_close stdout_fileno id tid; ret true) else ret false
