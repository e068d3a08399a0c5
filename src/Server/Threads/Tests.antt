-- ===== src/Server/Threads/Tests.antt =====
-- The main thread and one office on all paths, and the state after the main thread's first call.
use home_banking_system.Base.{
  ℕ, ◌<◌, ◌≤◌, ◌≡◌, refl, Bool, true, if◌then◌else◌, none, some, [], arith, ◌⊎◌,
}
use home_banking_system.Base.Int.{pos}
use home_banking_system.Types.{OpType, TlvRequest, TlvReply, rc_ok}
use home_banking_system.Os.{
  Call, Answer, mutex_unlock, load, queue_front, malloc_request, read_length, ret, ◌>>=◌,
}
use home_banking_system.Os.Run.{update}
use home_banking_system.Sample.{pays}
use home_banking_system.Shared.Accounts.Login.{IsStored}
use home_banking_system.Server.Paths.{Follows, Same}
use home_banking_system.Server.Requests.Discipline.{IsFair}
use home_banking_system.Server.Main.{main_loop, after_read}
use home_banking_system.Server.Main.Discipline.{IsFed}
use home_banking_system.Shared.Protocol.Pipe.{read_request_into, value_size}
use home_banking_system.Server.Office.{balconies}
use home_banking_system.Server.Office.Discipline.{balconies-Follows}
use home_banking_system.Server.Office.Replies.{IsServable}
use home_banking_system.Server.Threads.{Thread, Reach, start, next, step}
use home_banking_system.Server.Threads.Progress.{IsDone, CanGoOn}
use home_banking_system.Server.Threads.Server.{server_threads, server_never_deadlocks}

-- Giving a mutex back succeeds, what is loaded is a proper account, what is on the queue can be
-- served, and all else can happen.
abbrev Others : (c : Call) → Answer c → Type 0
Others (mutex_unlock m) r = r ≡ pos 0
Others (load i) a = IsStored a
Others queue_front none = Unit
Others queue_front (some r) = IsServable r
Others malloc_request none = ⊥
Others malloc_request (some m) = Unit
Others (read_length fd) r = r.1 ≤ value_size
Others _ r = Unit

Others-IsFair : IsFair Others
Others-IsFair = record { unlocks = λ m r e. e; loads = λ i a stored. stored }

Others-IsFed : IsFed Others
Others-IsFed = record { memory = λ no. no; lengths = λ fd z n can read. can }

abbrev memory : TlvReply
memory = record {
  type = OpType.balance;
  length = 0;
  value = record { header = record { account_id = 0; ret_code = rc_ok }; word = 0 };
}

abbrev request : TlvRequest
request = record { type = OpType.transfer; length = 41; value = pays }

balconies-Follows_example :
    Follows Others (Same []) [] (balconies (pos 3) (pos 4) (pos 1) (pos 9) memory 0 5)
balconies-Follows_example =
    balconies-Follows Others (pos 3) (pos 4) (pos 1) (pos 9) memory 0 5 Others-IsFair (λ r is. is)

-- A message that says that it has 63 bytes.
abbrev Long : (c : Call) → Answer c → Type 0
Long (read_length fd) r = r ≡ (pos 4, 63)
Long _ r = Unit

abbrev threads : ℕ → Thread Bool
threads = server_threads (pos 3) (pos 4) (λ _. pos 9) memory 0 1

-- The main thread has memory for a request.
abbrev reached : ℕ → Thread Bool
reached = update threads 0 (record {
  held = [];
  rest = read_request_into (pos 3) (some request) >>= after_read >>= λ more.
      if more then main_loop 0 (pos 3) else ret true;
})

reach : Reach Others 2 threads reached
unfolding server_threads main_loop
reach =
    next threads _ start (step threads 0 malloc_request _ (some request) (omega arith) refl tt tt)

server_never_deadlocks_example :
    ((i : ℕ) → i < 2 → IsDone Others 2 reached i) ⊎ CanGoOn Others 2 reached
server_never_deadlocks_example =
    server_never_deadlocks Others (pos 3) (pos 4) (λ _. pos 9) memory 0 1 2 reached Others-IsFair
      Others-IsFed (λ r is. is) reach
