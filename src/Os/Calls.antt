-- ===== src/Os/Calls.antt =====
-- The calls, and the type of each one's answer.
use home_banking_system.Base.{ℕ, Bool, Option, List}
use home_banking_system.Base.Int.{ℤ}
use home_banking_system.Types.{
  Account, OpType, ReqValue, TlvRequest, TlvReply, SyncMechOp, SyncRole,
}

-- The mutexes of server_f/sync.c.
pub data Mutex : Type 0 where
  log_mutex req_queue_mutex active_office_mutex : Mutex
  accounts_db_mutex : ℕ → Mutex

-- Its semaphores.
pub data Sem : Type 0 where
  full empty : Sem

-- What the functions of shared/log.c print, by the function that formats it.
pub data Line : Type 0 where
  request : ℤ → TlvRequest → Line
  reply : ℤ → TlvReply → Line
  office : ℤ → ℤ → Bool → Line
  account_creation : ℤ → Account → Line
  sync_mech : ℤ → SyncMechOp → SyncRole → ℤ → Line
  sync_mech_sem : ℤ → SyncMechOp → SyncRole → ℤ → ℤ → Line
  delay : ℤ → ℕ → Line
  sync_delay : ℤ → ℤ → ℕ → Line

pub data Call : Type 0 where
  mutex_lock mutex_unlock mutex_init mutex_destroy : Mutex → Call
  sem_init : Sem → ℕ → Call
  sem_wait sem_post sem_destroy sem_getvalue : Sem → Call
  print : ℤ → Line → Call  -- a formatted line to a descriptor; its length, or negative
  usleep : ℕ → Call
  load : ℕ → Call  -- `*accounts_database[i]`
  store : ℕ → Account → Call
  load_balcony_open load_active_offices : Call
  store_balcony_open : Bool → Call
  store_active_offices : ℕ → Call
  close : ℤ → Call
  fchmod : ℤ → ℕ → Call
  rand : Call
  uninit : ℕ → Call  -- the bytes that an automatic array holds before it is written
  pipe fork waitpid execlp : Call
  close_end : ℕ → Call  -- one of the four ends of the two pipes of `gen_hash`
  dup2 : ℕ → ℕ → Call
  write_pipe : List ℕ → Call
  read_pipe : ℕ → Call
  malloc_request : Call  -- memory for a request, with what it holds; none is NULL
  -- The three reads of `read_request`: what `read` returns, and what it gives.
  read_type read_length : ℤ → Call
  read_value : ℤ → ℕ → Call  -- so many bytes into the value
  -- The operations of shared/queue.c on the server's queue of pointers to requests.
  queue_push : TlvRequest → Call
  queue_front queue_pop is_queue_empty del_queue : Call
  open_fifo : List ℕ → Call  -- for writing, by its name; a descriptor, or -1
  write : ℤ → List ℕ → Call
  open_read mkfifo unlink : List ℕ → Call
  open_log errno_is_eexist : Call
  thread_create thread_join : ℕ → Call

abbrev pub Answer : Call → Type 0
Answer (sem_getvalue _) = ℤ × ℤ
Answer (usleep _) = Unit
Answer (load _) = Account
Answer (store _ _) = Unit
Answer load_balcony_open = Bool
Answer load_active_offices = ℕ
Answer (store_balcony_open _) = Unit
Answer (store_active_offices _) = Unit
Answer rand = ℕ
Answer (uninit _) = List ℕ
Answer (read_pipe _) = ℤ × List ℕ
Answer malloc_request = Option TlvRequest
Answer (read_type _) = ℤ × OpType
Answer (read_length _) = ℤ × ℕ
Answer (read_value _ _) = ℤ × ReqValue
Answer queue_front = Option TlvRequest
Answer errno_is_eexist = Bool
Answer _ = ℤ
