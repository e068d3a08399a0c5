-- ===== src/Server/Offices/Count.antt =====
-- server_f/active_offices.c: the count of offices, in a run of one office and on all paths.
use home_banking_system.Base.{ℕ, ◌+◌, ◌-◌, ◌%◌, ◌^◌, ◌<◌, ◌≡◌, refl, [], ◌∷◌, arith}
use home_banking_system.Base.Int.{ℤ, pos}
use home_banking_system.Os.{Mutex, active_office_mutex, Call, Answer, mutex_unlock, ret}
use home_banking_system.Os.Run.{Env, Sys, run, reliable, Ends}
use home_banking_system.Server.Paths.{Follows, Follows-lock, Follows-unlock, Same}
use home_banking_system.Server.Offices.{
  change_active_offices, increase_active_offices, decrease_active_offices,
}

-- When no call fails, an office that holds no mutex and counts itself in, and later out with the
-- count unchanged between, leaves the count as it was, and in between one higher (modulo 2 ^ 32);
-- both calls return 0 and leave no mutex held.
pub offices_counted :
    (env : Env) (s : Sys)
    → s.held ≡ []
    → s.active_offices < 2 ^ 32
    → Ends
        (λ r t.
          (r ≡ pos 0)
          × (t.active_offices ≡ (s.active_offices + 1) % 2 ^ 32)
          × (t.held ≡ [])
          × Ends
              (λ r u. (r ≡ pos 0) × (u.active_offices ≡ s.active_offices) × (u.held ≡ []))
              (run (reliable env) decrease_active_offices t))
        (run (reliable env) increase_active_offices s)
unfolding run increase_active_offices decrease_active_offices
offices_counted env s free small = ground arith

change-Follows :
    (Can : (c : Call) → Answer c → Type 0)
    → ((m : Mutex) (r : ℤ) → Can (mutex_unlock m) r → r ≡ pos 0)
    → (change : ℕ → ℕ) → Follows Can (Same []) [] (change_active_offices change)
unfolding change_active_offices
change-Follows Can unlocks change =
    Follows-lock Can (Same []) active_office_mutex [] _ tt (λ r e. rw e refl)
      (λ r e. rw e (
        tt,
        λ n _. (
          refl,
          λ _ _.
              Follows-unlock Can (Same []) active_office_mutex (active_office_mutex ∷ []) [] ret
                (unlocks active_office_mutex) refl refl refl,
        ),
      ))

-- On every path of `increase_active_offices` and `decrease_active_offices` that starts with no mutex
-- held, the count is written only under its mutex, which is given back: no mutex is held at the end.
-- This relies on a held mutex's being given back successfully.
pub offices_follow :
    (Can : (c : Call) → Answer c → Type 0)
    → ((m : Mutex) (r : ℤ) → Can (mutex_unlock m) r → r ≡ pos 0)
    → Follows Can (Same []) [] increase_active_offices
      × Follows Can (Same []) [] decrease_active_offices
unfolding increase_active_offices decrease_active_offices
offices_follow Can unlocks = (
  change-Follows Can unlocks (λ n. (n + 1) % 2 ^ 32),
  change-Follows Can unlocks (λ n. (n + 2 ^ 32 - 1) % 2 ^ 32),
)
