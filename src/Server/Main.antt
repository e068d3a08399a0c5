-- ===== src/Server/Main.antt =====
-- `main` of server_f/server.c.
pub mod Arguments
pub mod Discipline
pub mod Loop
mod Tests
use home_banking_system.Base.{
  ℕ, zero, suc, ◌+◌, ◌*◌, ◌%◌, ◌^◌, Bool, true, false, ◌&&◌, not, Option, none, some, List, [], ◌∷◌,
  leb, ltb, if◌then◌else◌,
}
use home_banking_system.Base.Int.{ℤ, pos, not_zero, is_neg, to_int, pos_part}
use home_banking_system.Types.{
  TlvRequest, RetCode, rc_ok, rc_srv_down, code_of, role_producer, main_thread_id, admin_account_id,
  empty_account_id, max_bank_accounts,
}
use home_banking_system.Os.{
  Prog, ret, exits, ◌>>=◌, ◌>>◌, do_call, load_balcony_open, malloc_request, undefined, queue_push,
  del_queue, close, open_read, open_fifo, open_log, mkfifo, unlink, errno_is_eexist, thread_create,
  thread_join, dup2,
}
use home_banking_system.Shared.Accounts.{create_account, change_account}
use home_banking_system.Shared.Utilities.{strtol, signed, skip_space}
use home_banking_system.Shared.Protocol.Pipe.{read_request_into}
use home_banking_system.Server.SyncLog.{sync_log_request}
use home_banking_system.Server.Sync.{
  stdout_fileno, init_sync, del_sync, wait_sem_empty, post_sem_full, lock_queue_mutex,
  unlock_queue_mutex,
}
use home_banking_system.Server.Requests.{is_ok}
use home_banking_system.Server.Office.{unknown, exit_other, or_exit}
use home_banking_system.Server.Parse.{valid_args}

abbrev pub main_thread : ℤ
main_thread = pos main_thread_id

-- `SERVER_FIFO_PATH`: "/tmp/secure_srv".
abbrev pub server_fifo_path : List ℕ
server_fifo_path =
    b'/' ∷ b't' ∷ b'm' ∷ b'p' ∷ b'/' ∷ b's' ∷ b'e' ∷ b'c' ∷ b'u' ∷ b'r' ∷ b'e' ∷ b'_' ∷ b's' ∷ b'r'
    ∷ b'v' ∷ []

-- Whether `strtol` sets `errno` to `ERANGE`.
unfoldable pub out_of_range : List ℕ → Bool
out_of_range s =
    let (negative, n, rest) = signed s (skip_space s) in
    if negative then ltb (2 ^ 63) n else leb (2 ^ 63) n

-- The checks of the number that `strtol` made of the first argument, and what it left of it; `none` is
-- `exit(RC_OTHER)`.
unfoldable pub check_args : Bool → ℤ → List ℕ → List ℕ → Option (ℕ × List ℕ)
check_args true n_threads garbage pwd = none
check_args false n_threads (c ∷ cs) pwd = none
check_args false n_threads [] pwd =
    if valid_args n_threads pwd then some (pos_part n_threads, pwd) else none

-- The number of offices and the password, from the two arguments. The conversion to `int` keeps the
-- low 32 bits.
unfoldable pub parse_args : List (List ℕ) → Option (ℕ × List ℕ)
unfolding out_of_range check_args
parse_args (arg1 ∷ pwd ∷ []) =
    let number = strtol arg1 in
    check_args (out_of_range arg1) (to_int (number.0 % 2 ^ 32)) number.1 pwd
parse_args args = none

-- `if (p < 0) exit(code);`, and then the rest.
abbrev or_exit_neg : {A : Type 0} → ℤ → Prog ℤ → (ℤ → Prog A) → Prog A
or_exit_neg code p rest = do r ← p; if is_neg r then exits code else rest r

-- The server's FIFO, made again if there is one.
unfoldable pub make_fifo : Prog (Unit {0})
make_fifo = do
  made ← do_call (mkfifo server_fifo_path)
  if not (is_neg made) then ret tt else do
    exists ← do_call errno_is_eexist
    if not exists then exits exit_other else do
      do_call (unlink server_fifo_path)
      or_exit_neg exit_other (do_call (mkfifo server_fifo_path)) (λ _. ret tt)

-- The two loops over threads and accounts before the server reads, with `k` rounds left at `i`.
unfoldable pub create_offices : ℕ → ℕ → Prog (Unit {0})
create_offices zero i = ret tt
create_offices (suc k) i = or_exit (do_call (thread_create i)) (create_offices k (suc i))

unfoldable pub empty_accounts : ℕ → ℕ → Prog (Unit {0})
empty_accounts zero i = ret tt
empty_accounts (suc k) i = do
  change_account i (λ a. record a { account_id = empty_account_id })
  empty_accounts k (suc i)

-- Everything before the loop: the descriptors that `secure_srv` and `dummy_connection` get. The
-- queue itself is allocated first; no memory for it ends the process too.
unfoldable pub set_up : Bool → ℕ → List ℕ → Prog (ℤ × ℤ)
unfolding make_fifo create_offices empty_accounts
set_up has_memory n_threads pwd = or_exit_neg exit_other (do_call open_log) (λ logfile. do
  do_call (dup2 (pos_part logfile) 1)
  if not has_memory
      then exits exit_other
      else or_exit (init_sync n_threads) do
        make_fifo
        create_offices n_threads 0
        empty_accounts max_bank_accounts 0
        code ← create_account pwd admin_account_id 0
        if not (is_ok code)
            then exits exit_other
            else or_exit_neg (pos (code_of rc_srv_down)) (do_call (open_read server_fifo_path))
                (λ srv.
                  or_exit_neg (pos (code_of rc_srv_down)) (do_call (open_fifo server_fifo_path))
                    (λ dummy. ret (srv, dummy))))

-- A request is put on the queue.
unfoldable pub produce : TlvRequest → Prog (Unit {0})
produce r = do
  let pid = r.value.header.pid
  sync_log_request stdout_fileno main_thread r
  or_exit (wait_sem_empty main_thread pid) (
      or_exit (lock_queue_mutex main_thread role_producer pid) (
        or_exit (do_call (queue_push r)) (
          or_exit (unlock_queue_mutex main_thread role_producer pid)
            (or_exit (post_sem_full main_thread pid) (ret tt)))))

-- The request is read through its pointer. (With NULL, the log's function before that only returns an
-- error.)
unfoldable pub produce_at : Option TlvRequest → Prog (Unit {0})
unfolding produce
produce_at none = undefined
produce_at (some r) = produce r

-- What is done with what `read_request` gave; true if the loop goes on. `read_request` gives 0 for a
-- request that it has read as well as for the end of the pipe.
unfoldable pub after_read : ℤ × Option TlvRequest → Prog Bool
unfolding produce_at
after_read got = if is_neg got.0 then ret false else do
  balcony_open ← do_call load_balcony_open
  if not balcony_open && not (not_zero got.0) then ret false else do produce_at got.1; ret true

unfoldable pub main_round : ℤ → Prog Bool
unfolding read_request_into after_read
main_round srv = do
  memory ← do_call malloc_request
  got ← read_request_into srv memory
  after_read got

-- At most `k` rounds, and whether the loop has ended by then.
unfoldable pub main_loop : ℕ → ℤ → Prog Bool
unfolding main_round
main_loop zero srv = ret false
main_loop (suc k) srv = do more ← main_round srv; if more then main_loop k srv else ret true

unfoldable pub post_all : ℕ → Prog (Unit {0})
post_all zero = ret tt
post_all (suc k) = do post_sem_full main_thread unknown; post_all k

unfoldable pub join_all : ℕ → ℕ → Prog (Unit {0})
join_all zero i = ret tt
join_all (suc k) i = do do_call (thread_join i); join_all k (suc i)

-- Everything behind the loop; the accounts are freed before the descriptor is closed.
unfoldable pub tear_down : ℕ → ℤ → Prog ℤ
unfolding post_all join_all
tear_down n_threads srv = do
  post_all n_threads
  join_all n_threads 0
  or_exit (do_call del_queue) (
      or_exit del_sync (
        or_exit (do_call (close srv))
          (or_exit (do_call (unlink server_fifo_path)) (ret (pos (code_of rc_ok))))))

-- What the process returns, if the loop ends within `k` rounds.
unfoldable pub main : ℕ → Bool → List (List ℕ) → Prog (Option ℤ)
unfolding parse_args set_up main_loop tear_down
main k has_memory args = elim (parse_args args) [
  | none ↦ exits exit_other
  | some (n_threads, pwd) ↦ do
    fds ← set_up has_memory n_threads pwd
    ended ← main_loop k fds.0
    if ended then (do code ← tear_down n_threads fds.0; ret (some code)) else ret none
]
