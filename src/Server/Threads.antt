-- ===== src/Server/Threads.antt =====
-- Threads side by side, each with the mutexes that it holds and the rest of its program. A step is a
-- call of one of them. What a call answers is what `Can` allows, so everything that the threads share
-- but the mutexes is left open.
pub mod Held
pub mod Invariant
pub mod Progress
pub mod Server
mod Tests
use home_banking_system.Base.{ℕ, suc, ◌<◌, ◌≡◌, Bool, true, false, List, []}
use home_banking_system.Base.Int.{ℤ, not_zero}
use home_banking_system.Os.{Mutex, Call, Answer, mutex_lock, Prog, call}
use home_banking_system.Os.Run.{is_held, update}
use home_banking_system.Server.Paths.{held_after}

pub record Thread (A : Type 0) : Type 0 where
  pub held : List Mutex
  pub rest : Prog A

-- No thread holds the mutex.
abbrev pub IsFree : {A : Type 0} → Mutex → ℕ → (ℕ → Thread A) → Type 0
IsFree m n ts = (j : ℕ) → j < n → is_held m (ts j).held ≡ false

-- A mutex is given only while no thread holds it.
abbrev pub IsPossible : {A : Type 0} → ℕ → (ℕ → Thread A) → (c : Call) → Answer c → Type 0
IsPossible n ts (mutex_lock m) r = not_zero r ≡ false → IsFree m n ts
IsPossible n ts _ r = Unit

abbrev pub after : {A : Type 0} → Thread A → (c : Call) → Answer c → Prog A → Thread A
after t c r rest = record { held = held_after c r t.held; rest = rest }

-- The step of the thread `i`, of `n`.
pub data Step {A : Type 0} (Can : (c : Call) → Answer c → Type 0) (n : ℕ)
    : (ℕ → Thread A) → (ℕ → Thread A) → Type 0 where
  step :
      (ts : ℕ → Thread A) (i : ℕ) (c : Call) (k : Answer c → Prog A) (r : Answer c)
      → i < n
      → (ts i).rest ≡ call c k
      → Can c r
      → IsPossible n ts c r
      → Step Can n ts (update ts i (after (ts i) c r (k r)))

pub data Reach {A : Type 0} (Can : (c : Call) → Answer c → Type 0) (n : ℕ) (from : ℕ → Thread A)
    : (ℕ → Thread A) → Type 0 where
  start : Reach Can n from from
  next : (ts us : ℕ → Thread A) → Reach Can n from ts → Step Can n ts us → Reach Can n from us
