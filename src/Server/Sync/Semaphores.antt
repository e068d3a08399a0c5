-- ===== src/Server/Sync/Semaphores.antt =====
-- The counts of the semaphores of server_f/sync.c, when no call fails and no other thread intervenes.
use home_banking_system.Base.{ℕ, ◌+◌, ◌-◌, ◌<◌, ◌≡◌, refl, subst, zero, suc, false, ◌∷◌, arith}
use home_banking_system.Base.Int.{ℤ, pos}
use home_banking_system.Types.{op_sem_wait, op_sem_post, role_producer, role_consumer}
use home_banking_system.Os.{Line, log_mutex, sync_mech_sem}
use home_banking_system.Os.Run.{Env, Sys, Outcome, blocked, run, reliable, Ends, is_held}
use home_banking_system.Server.Sync.{
  stdout_fileno, wait_sem_empty, wait_sem_full, post_sem_empty, post_sem_full,
}

-- Both counts, the mutexes and the accounts; and the newest line of the log.
abbrev pub Counted : Sys → ℕ → ℕ → Line → ℤ → Sys → Type 0
Counted s full_value empty_value line r t =
    (r ≡ pos 0)
    × (t.full_value ≡ full_value)
    × (t.empty_value ≡ empty_value)
    × (t.held ≡ s.held)
    × (t.accounts ≡ s.accounts)
    × (t.log ≡ (stdout_fileno, line) ∷ s.log)

module _ (env : Env) (id sid : ℤ) (s : Sys) (free : is_held log_mutex s.held ≡ false) where
  wait_sem_empty_lem :
      0 < s.empty_value
      → Ends
          (Counted s s.full_value
            (s.empty_value - 1)
            (sync_mech_sem id op_sem_wait role_producer sid (pos s.empty_value)))
          (run (reliable env) (wait_sem_empty id sid) s)
  unfolding run wait_sem_empty
  wait_sem_empty_lem some_left = ground arith

  wait_sem_full_lem :
      0 < s.full_value
      → Ends
          (Counted s
            (s.full_value - 1)
            s.empty_value
            (sync_mech_sem id op_sem_wait role_consumer sid (pos s.full_value)))
          (run (reliable env) (wait_sem_full id sid) s)
  unfolding run wait_sem_full
  wait_sem_full_lem some_left = ground arith

  post_sem_full_lem :
      Ends
        (Counted s
          (s.full_value + 1)
          s.empty_value
          (sync_mech_sem id op_sem_post role_producer sid (pos (s.full_value + 1))))
        (run (reliable env) (post_sem_full id sid) s)
  unfolding run post_sem_full
  post_sem_full_lem = ground arith

  post_sem_empty_lem :
      Ends
        (Counted s s.full_value
          (s.empty_value + 1)
          (sync_mech_sem id op_sem_post role_consumer sid (pos (s.empty_value + 1))))
        (run (reliable env) (post_sem_empty id sid) s)
  unfolding run post_sem_empty
  post_sem_empty_lem = ground arith

-- A run that waits for ever, alone, in a state of which `P` holds.
abbrev pub Blocks : {A : Type 0} → (Sys → Type 0) → Outcome A → Type 0
Blocks P (blocked t) = P t
Blocks P _ = ⊥

module _ (env : Env) (id sid : ℤ) (s : Sys) (free : is_held log_mutex s.held ≡ false) where
  wait_sem_empty-Blocks :
      s.empty_value ≡ 0
      → Blocks
          (λ t. (t.held ≡ s.held) × (t.full_value ≡ s.full_value))
          (run (reliable env) (wait_sem_empty id sid) s)
  unfolding run wait_sem_empty
  wait_sem_empty-Blocks none_left = ground arith

  wait_sem_full-Blocks :
      s.full_value ≡ 0
      → Blocks
          (λ t. (t.held ≡ s.held) × (t.empty_value ≡ s.empty_value))
          (run (reliable env) (wait_sem_full id sid) s)
  unfolding run wait_sem_full
  wait_sem_full-Blocks none_left = ground arith

-- A wait at the count `n`: it blocks at 0, and otherwise ends as `Q` says of the count that is left.
abbrev pub Waits : ℕ → (Sys → Type 0) → (ℕ → ℤ → Sys → Type 0) → Outcome ℤ → Type 0
Waits zero P Q o = Blocks P o
Waits (suc n) P Q o = Ends (Q n) o

Waits-cases :
    (n : ℕ) (P : Sys → Type 0) (Q : ℕ → ℤ → Sys → Type 0) (o : Outcome ℤ)
    → (n ≡ 0 → Blocks P o)
    → (0 < n → Ends (Q (n - 1)) o)
    → Waits n P Q o
Waits-cases zero P Q o none_left some_left = none_left refl
Waits-cases (suc n) P Q o none_left some_left =
    subst (λ m. Ends (Q m) o) (omega arith) (some_left (omega arith))

-- The two sides of the queue when no call fails, by a thread that does not hold the log's mutex and
-- with no other thread between: the producer's wait takes one from the count of free offices, and
-- the consumer's one from the count of requests, or blocks with no mutex more and the other count as
-- it was if that count is 0; the posts add one to the other count; and each that ends writes one
-- line, with the count before the wait or after the post.
pub sem_counts :
    (env : Env) (id sid : ℤ) (s : Sys)
    → is_held log_mutex s.held ≡ false
    → Waits s.empty_value
        (λ t. (t.held ≡ s.held) × (t.full_value ≡ s.full_value))
        (λ n.
          Counted s s.full_value n
            (sync_mech_sem id op_sem_wait role_producer sid (pos s.empty_value)))
        (run (reliable env) (wait_sem_empty id sid) s)
      × Waits s.full_value
          (λ t. (t.held ≡ s.held) × (t.empty_value ≡ s.empty_value))
          (λ n.
            Counted s n s.empty_value
              (sync_mech_sem id op_sem_wait role_consumer sid (pos s.full_value)))
          (run (reliable env) (wait_sem_full id sid) s)
      × Ends
          (Counted s
            (s.full_value + 1)
            s.empty_value
            (sync_mech_sem id op_sem_post role_producer sid (pos (s.full_value + 1))))
          (run (reliable env) (post_sem_full id sid) s)
      × Ends
          (Counted s s.full_value
            (s.empty_value + 1)
            (sync_mech_sem id op_sem_post role_consumer sid (pos (s.empty_value + 1))))
          (run (reliable env) (post_sem_empty id sid) s)
sem_counts env id sid s free = (
  Waits-cases s.empty_value _ _ _ (wait_sem_empty-Blocks env id sid s free)
      (wait_sem_empty_lem env id sid s free),
  Waits-cases s.full_value _ _ _ (wait_sem_full-Blocks env id sid s free)
      (wait_sem_full_lem env id sid s free),
  post_sem_full_lem env id sid s free,
  post_sem_empty_lem env id sid s free,
)
