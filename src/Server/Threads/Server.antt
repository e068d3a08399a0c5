-- ===== src/Server/Threads/Server.antt =====
-- The server's threads, the loop of `main` and the offices of server_f/server.c, side by side.
use home_banking_system.Base.{ℕ, zero, suc, ◌<◌, ◌≡◌, Bool, Option, none, some, [], arith, ◌⊎◌}
use home_banking_system.Base.Int.{ℤ, pos}
use home_banking_system.Types.{TlvRequest, TlvReply}
use home_banking_system.Os.{
  Mutex, req_queue_mutex, active_office_mutex, accounts_db_mutex, Call, Answer, queue_push,
  queue_front, queue_pop, is_queue_empty, store, store_active_offices, Prog, call,
}
use home_banking_system.Server.Requests.Discipline.{IsFair}
use home_banking_system.Server.Main.{main_loop}
use home_banking_system.Server.Main.Discipline.{IsFed, main_loop-Follows}
use home_banking_system.Server.Office.{balconies}
use home_banking_system.Server.Office.Discipline.{balconies-Follows}
use home_banking_system.Server.Office.Replies.{IsServable}
use home_banking_system.Server.Threads.{Thread, Reach}
use home_banking_system.Server.Threads.Invariant.{AllFollow, IsExclusive, reach-Invariant}
use home_banking_system.Server.Threads.Progress.{IsDone, CanGoOn, progress}

-- The main thread is the first; office `i` is the thread `i`. Each makes at most `k` rounds.
unfoldable pub server_threads : ℤ → ℤ → (ℕ → ℤ) → TlvReply → ℕ → ℕ → ℕ → Thread Bool
server_threads srv dummy tid memory b k zero = record { held = []; rest = main_loop k srv }
server_threads srv dummy tid memory b k (suc i) = record {
  held = [];
  rest = balconies srv dummy (pos (suc i)) (tid i) memory b k;
}

-- The mutex that a call's object is under.
abbrev pub guard : Call → Option Mutex
guard (store i a) = some (accounts_db_mutex i)
guard (store_active_offices n) = some active_office_mutex
guard (queue_push r) = some req_queue_mutex
guard queue_front = some req_queue_mutex
guard queue_pop = some req_queue_mutex
guard is_queue_empty = some req_queue_mutex
guard _ = none

module _ (Can : (c : Call) → Answer c → Type 0) (n : ℕ) (ts : ℕ → Thread Bool) where
  -- Two threads are about to use the same guarded object.
  abbrev pub IsRace : ℕ → ℕ → Type 0
  IsRace i j =
      (m : Mutex) × (c : Call) × (k : Answer c → Prog Bool) × (c' : Call) × (k' : Answer c'
        → Prog Bool)
      × ((ts i).rest ≡ call c k)
      × ((ts j).rest ≡ call c' k')
      × (guard c ≡ some m)
      × (guard c' ≡ some m)

module _ (Can : (c : Call) → Answer c → Type 0) (fair : IsFair Can) (fed : IsFed Can)
    (queued : (r : TlvRequest) → Can queue_front (some r) → IsServable r) (srv dummy : ℤ)
    (tid : ℕ → ℤ) (memory : TlvReply) (b k n : ℕ) where
  server-AllFollow : AllFollow Can n (server_threads srv dummy tid memory b k)
  unfolding server_threads
  server-AllFollow zero lt = main_loop-Follows Can k srv fair fed
  server-AllFollow (suc i) lt =
      balconies-Follows Can srv dummy (pos (suc i)) (tid i) memory b k fair queued

  server-IsExclusive : IsExclusive Can n (server_threads srv dummy tid memory b k)
  unfolding server_threads
  server-IsExclusive zero j m lt lt' differs holds = absurd (ground arith)
  server-IsExclusive (suc i) j m lt lt' differs holds = absurd (ground arith)

-- In every state that the main thread and any number of offices reach, one call after the other in any
-- order and with any answers that `Can` allows, a mutex being given only while no thread holds it:
-- either all threads are done, or one has ended the process, or the next call of one does not wait for
-- a mutex; so they never all wait for each other's mutexes. (The wait of a semaphore is not one for a
-- mutex.) This relies on a held mutex's being given back successfully, on what is loaded having arrays
-- of the right sizes and, if it is in use, a salt that ends within its array, on the queue's
-- holding only requests of the four operations whose numbers are those of accounts, whose passwords
-- fit and whose process has a FIFO's name, on memory for each request, and on a length from the pipe of
-- at most 62.
pub server_never_deadlocks :
    (Can : (c : Call) → Answer c → Type 0) (srv dummy : ℤ) (tid : ℕ → ℤ) (memory : TlvReply)
    (b k n : ℕ) (ts : ℕ → Thread Bool)
    → IsFair Can
    → IsFed Can
    → ((r : TlvRequest) → Can queue_front (some r) → IsServable r)
    → Reach Can n (server_threads srv dummy tid memory b k) ts
    → ((i : ℕ) → i < n → IsDone Can n ts i) ⊎ CanGoOn Can n ts
server_never_deadlocks Can srv dummy tid memory b k n ts fair fed queued reach = progress Can n ts (
    (reach-Invariant Can n (server_threads srv dummy tid memory b k) ts reach
      (server-AllFollow Can fair fed queued srv dummy tid memory b k n)
      (server-IsExclusive Can fair fed queued srv dummy tid memory b k n)).0)
