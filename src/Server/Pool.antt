-- ===== src/Server/Pool.antt =====
-- How the main thread and the offices of server_f/server.c share the queue and its two semaphores:
-- the loops of `main` and of `balconies` as steps. The queue is used only under its mutex, so what a
-- thread does between a lock and an unlock is one step. No call fails but `read_request`.

pub mod Counts
pub mod Invariant
pub mod Orderly
pub mod Ending
pub mod Walk
pub mod Race
mod Tests
use home_banking_system.Base.{ℕ, suc, ◌+◌, ◌≡◌, Bool, true, false, ◌&&◌, not, List, [], ◌∷◌, ◌++◌}
use home_banking_system.Types.{TlvRequest, OpType}

-- `accepted` and `taken` are the requests that have been put on the queue and taken off it so far;
-- `ended` says that `exit` has been called.
pub record Shared : Type 0 where
  pub full_value : ℕ
  pub empty_value : ℕ
  pub queue : List TlvRequest
  pub balcony_open : Bool
  pub accepted : List TlvRequest
  pub taken : List TlvRequest
  pub ended : Bool

-- Where an office is: before `wait_sem_full`; before it looks at the queue; after it has, with what it
-- saw; before it takes a request; before `post_sem_empty`; in the handler; in the reply; gone.
pub data Office : Type 0 where
  waiting checking : Office
  seen : Bool → Office
  taking : Office
  took : TlvRequest → Office
  serving : TlvRequest → Office
  replying left : Office

abbrev pub is_empty : List TlvRequest → Bool
is_empty [] = true
is_empty (r ∷ rs) = false

-- The steps of an office.
pub data Move : Shared → Office → Shared → Office → Type 0 where
  wakes :
      (s : Shared) (k : ℕ)
      → s.full_value ≡ suc k
      → Move s waiting (record s { full_value = k }) checking
  checks : (s : Shared) → Move s checking s (seen (is_empty s.queue))
  leaves : (s : Shared) (b : Bool) → (not s.balcony_open && b) ≡ true → Move s (seen b) s left
  stays : (s : Shared) (b : Bool) → (not s.balcony_open && b) ≡ false → Move s (seen b) s taking
  takes :
      (s : Shared) (r : TlvRequest) (rs : List TlvRequest)
      → s.queue ≡ r ∷ rs
      → Move s taking (record s { queue = rs; taken = s.taken ++ r ∷ [] }) (took r)
  finds_none : (s : Shared) → s.queue ≡ [] → Move s taking (record s { ended = true }) taking
  posts_empty :
      (s : Shared) (r : TlvRequest)
      → Move s (took r) (record s { empty_value = s.empty_value + 1 }) (serving r)
  handles : (s : Shared) (r : TlvRequest) → Move s (serving r) s replying
  closes :
      (s : Shared) (r : TlvRequest)
      → r.type ≡ OpType.shutdown
      → Move s (serving r) (record s { balcony_open = false }) replying
  replies : (s : Shared) → Move s replying s waiting

-- Where the main thread is: before `read_request`; before `wait_sem_empty`; before it puts the request
-- on the queue; before `post_sem_full`; behind the loop, with posts left; behind the joins.
pub data Producer : Type 0 where
  reading : Producer
  pending placing : TlvRequest → Producer
  posting : Producer
  ending : ℕ → Producer
  over : Producer

-- The steps of the main thread, of a server with `n` offices.
pub data Produce (n : ℕ) : Shared → Producer → Shared → Producer → Type 0 where
  reads : (s : Shared) (r : TlvRequest) → s.balcony_open ≡ true → Produce n s reading s (pending r)
  stops : (s : Shared) → s.balcony_open ≡ false → Produce n s reading s (ending n)
  fails : (s : Shared) → Produce n s reading s (ending n)
  waits :
      (s : Shared) (r : TlvRequest) (k : ℕ)
      → s.empty_value ≡ suc k
      → Produce n s (pending r) (record s { empty_value = k }) (placing r)
  pushes :
      (s : Shared) (r : TlvRequest)
      → Produce n s
          (placing r)
          (record s { queue = s.queue ++ r ∷ []; accepted = s.accepted ++ r ∷ [] })
          posting
  posts_full :
      (s : Shared) → Produce n s posting (record s { full_value = s.full_value + 1 }) reading
  posts_end :
      (s : Shared) (k : ℕ)
      → Produce n s (ending (suc k)) (record s { full_value = s.full_value + 1 }) (ending k)

pub record State : Type 0 where
  pub shared : Shared
  pub producer : Producer
  pub offices : List Office

abbrev pub AllLeft : List Office → Type 0
AllLeft [] = Unit
AllLeft (left ∷ os) = AllLeft os
AllLeft (o ∷ os) = ⊥

-- A step of the server, as long as no thread has called `exit`. The main thread joins the offices when
-- all have left.
pub data Step (n : ℕ) : State → State → Type 0 where
  office :
      (s t : Shared) (p : Producer) (os os' : List Office) (o o' : Office)
      → s.ended ≡ false
      → Move s o t o'
      → Step n
          (record { shared = s; producer = p; offices = os ++ o ∷ os' })
          (record { shared = t; producer = p; offices = os ++ o' ∷ os' })
  main :
      (s t : Shared) (p q : Producer) (os : List Office)
      → s.ended ≡ false
      → Produce n s p t q
      → Step n
          (record { shared = s; producer = p; offices = os })
          (record { shared = t; producer = q; offices = os })
  joins :
      (s : Shared) (os : List Office)
      → s.ended ≡ false
      → AllLeft os
      → Step n
          (record { shared = s; producer = ending 0; offices = os })
          (record { shared = s; producer = over; offices = os })

abbrev pub all_waiting : ℕ → List Office
all_waiting ℕ.zero = []
all_waiting (suc n) = waiting ∷ all_waiting n

-- The server with `n` offices when it begins to read.
abbrev pub initial : ℕ → State
initial n = record {
  shared = record {
    full_value = 0;
    empty_value = n;
    queue = [];
    balcony_open = true;
    accepted = [];
    taken = [];
    ended = false;
  };
  producer = reading;
  offices = all_waiting n;
}

-- So many steps lead from one state to another.
pub data Trace (n : ℕ) : ℕ → State → State → Type 0 where
  none : (s : State) → Trace n 0 s s
  more : (k : ℕ) (s t u : State) → Trace n k s t → Step n t u → Trace n (suc k) s u
