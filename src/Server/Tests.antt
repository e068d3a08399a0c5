-- ===== src/Server/Tests.antt =====
-- The semaphores and the count of offices on the sample state.
use home_banking_system.Base.{◌≡◌, refl, [], arith}
use home_banking_system.Base.Int.{pos}
use home_banking_system.Types.{op_sem_wait, op_sem_post, role_producer, role_consumer}
use home_banking_system.Os.{Call, Answer, mutex_unlock, sync_mech_sem}
use home_banking_system.Os.Run.{run, reliable, Ends}
use home_banking_system.Sample.{env, start}
use home_banking_system.Server.Paths.{Follows, Same}
use home_banking_system.Server.Sync.{wait_sem_empty, wait_sem_full, post_sem_empty, post_sem_full}
use home_banking_system.Server.Sync.Semaphores.{Counted, Blocks, sem_counts}
use home_banking_system.Server.Offices.{increase_active_offices, decrease_active_offices}
use home_banking_system.Server.Offices.Count.{offices_counted, offices_follow}

-- No request and three free offices.
sem_counts_example :
    Ends
      (Counted start 0 2 (sync_mech_sem (pos 0) op_sem_wait role_producer (pos 9) (pos 3)))
      (run (reliable env) (wait_sem_empty (pos 0) (pos 9)) start)
    × Blocks
        (λ t. (t.held ≡ []) × (t.empty_value ≡ 3))
        (run (reliable env) (wait_sem_full (pos 0) (pos 9)) start)
    × Ends
        (Counted start 1 3 (sync_mech_sem (pos 0) op_sem_post role_producer (pos 9) (pos 1)))
        (run (reliable env) (post_sem_full (pos 0) (pos 9)) start)
    × Ends
        (Counted start 0 4 (sync_mech_sem (pos 0) op_sem_post role_consumer (pos 9) (pos 4)))
        (run (reliable env) (post_sem_empty (pos 0) (pos 9)) start)
sem_counts_example = sem_counts env (pos 0) (pos 9) start refl

offices_counted_example :
    Ends
      (λ r t.
        (r ≡ pos 0)
        × (t.active_offices ≡ 2)
        × (t.held ≡ [])
        × Ends
            (λ r u. (r ≡ pos 0) × (u.active_offices ≡ 1) × (u.held ≡ []))
            (run (reliable env) decrease_active_offices t))
      (run (reliable env) increase_active_offices start)
offices_counted_example = offices_counted env start refl (omega arith)

-- Giving a mutex back succeeds, and all else can happen.
abbrev Others : (c : Call) → Answer c → Type 0
Others (mutex_unlock m) r = r ≡ pos 0
Others _ r = Unit

offices_follow_example :
    Follows Others (Same []) [] increase_active_offices
    × Follows Others (Same []) [] decrease_active_offices
offices_follow_example = offices_follow Others (λ m r e. e)
