-- ===== src/Server/Threads/Progress.antt =====
-- Threads that follow the rules of Server/Paths never all wait for each other's mutexes.
use home_banking_system.Base.{
  ℕ, zero, suc, ◌+◌, ◌≤◌, ◌<◌, ◌≡◌, refl, subst, true, List, [], arith, ◌⊎◌, inl, inr, Bool-cases,
}
use home_banking_system.Base.Int.{ℤ}
use home_banking_system.Os.{Mutex, Call, Answer, mutex_lock, Prog, ret, exits, undefined, call}
use home_banking_system.Os.Run.{is_held}
use home_banking_system.Server.Paths.{rank, IsAbove, Follows, Same}
use home_banking_system.Server.Threads.{Thread, IsFree, IsPossible}
use home_banking_system.Server.Threads.Held.{load_of, rank-le, IsAbove-is_held}
use home_banking_system.Server.Threads.Invariant.{AllFollow}

Prog-cases :
    {A : Type 0} (p : Prog A)
    → ((a : A) × (p ≡ ret a))
      ⊎ (((z : ℤ) × (p ≡ exits z))
          ⊎ ((p ≡ undefined) ⊎ ((c : Call) × (k : Answer c → Prog A) × (p ≡ call c k))))
Prog-cases (ret a) = inl (a, refl)
Prog-cases (exits z) = inr (inl (z, refl))
Prog-cases undefined = inr (inr (inl refl))
Prog-cases (call c k) = inr (inr (inr (c, k, refl)))

lt-cases : (j k : ℕ) → j < suc k → (j ≡ k) ⊎ (j < k)
lt-cases j k h = ground arith

module _ {A : Type 0} (Can : (c : Call) → Answer c → Type 0) (n : ℕ) (ts : ℕ → Thread A) where
  -- The thread's next call does not wait for a mutex.
  abbrev pub IsReady : ℕ → Type 0
  IsReady i =
      (c : Call) × (k : Answer c → Prog A) × ((ts i).rest ≡ call c k)
      × ((r : Answer c) → IsPossible n ts c r)

  -- A thread has ended the process, or one is ready.
  abbrev pub CanGoOn : Type 0
  CanGoOn = (i : ℕ) × (i < n) × ((((z : ℤ) × ((ts i).rest ≡ exits z))) ⊎ IsReady i)

  abbrev pub IsDone : ℕ → Type 0
  IsDone i = (a : A) × ((ts i).rest ≡ ret a)

  -- The ranks that the first `k` threads hold, added up.
  total : ℕ → ℕ
  total zero = 0
  total (suc k) = total k + load_of (ts k).held

  load-total : (k j : ℕ) → j < k → load_of (ts j).held ≤ total k
  unfolding total
  load-total zero j lt = absurd (omega arith)
  load-total (suc k) j lt = elim (lt-cases j k lt) [
    | inl e ↦ rw e (omega arith)
    | inr lt' ↦ omega (arith, load-total k j lt')
  ]

  find_holder :
      (m : Mutex) (k : ℕ) → ((j : ℕ) × (j < k) × (is_held m (ts j).held ≡ true)) ⊎ IsFree m k ts
  find_holder m zero = inr (λ j lt. absurd (omega arith))
  find_holder m (suc k) = elim (Bool-cases (is_held m (ts k).held)) [
    | inl e ↦ inl (k, omega arith, e)
    | inr e ↦ elim (find_holder m k) [
      | inl (j, lt, holds) ↦ inl (j, omega arith, holds)
      | inr free ↦
          inr (λ j lt. elim (lt-cases j k lt) [ inl same ↦ rw same e | inr lt' ↦ free j lt' ])
    ]
  ]

  -- A call is possible, or waits for a mutex above those held, which another thread holds.
  call-cases :
      (held : List Mutex) (c : Call) (k : Answer c → Prog A)
      → Follows Can (Same []) held (call c k)
      → ((r : Answer c) → IsPossible n ts c r)
        ⊎ ((x : Mutex) × IsAbove x held × ((i : ℕ) × (i < n) × (is_held x (ts i).held ≡ true)))
  call-cases held (mutex_lock x) k (above, goes_on) = elim (find_holder x n) [
    | inl holder ↦ inr (x, above, holder)
    | inr free ↦ inl (λ r success. free)
  ]
  call-cases held _ k follows = inl (λ r. tt)

  module _ (all : AllFollow Can n ts) where
    -- Who holds a mutex moves, or waits for one of a higher rank, whose holder moves.
    holder_moves :
        (fuel : ℕ) (m : Mutex) (j : ℕ)
        → j < n
        → is_held m (ts j).held ≡ true
        → total n < rank m + fuel
        → CanGoOn
    holder_moves zero m j lt holds enough =
        absurd (omega (arith, rank-le m (ts j).held holds, load-total n j lt))
    holder_moves (suc fuel) m j lt holds enough = elim (Prog-cases (ts j).rest) [
      | inl (a, e) ↦
          let none_held : (ts j).held ≡ [] =
            subst (Follows Can (Same []) (ts j).held) e (all j lt) in
          absurd (ground (arith, none_held, holds))
      | inr (inl (z, e)) ↦ (j, lt, inl (z, e))
      | inr (inr (inl e)) ↦ absurd (subst (Follows Can (Same []) (ts j).held) e (all j lt))
      | inr (inr (inr (c, k, e))) ↦
          elim (call-cases (ts j).held c k
            (subst (Follows Can (Same []) (ts j).held) e (all j lt))) [
              | inl possible ↦ (j, lt, inr (c, k, e, possible))
              | inr (x, above, (i, lt', holds')) ↦
                  holder_moves fuel x i lt' holds'
                    (omega (arith, IsAbove-is_held m x (ts j).held above holds))
            ]
    ]

    thread_moves : (i : ℕ) → i < n → IsDone i ⊎ CanGoOn
    thread_moves i lt = elim (Prog-cases (ts i).rest) [
      | inl done ↦ inl done
      | inr (inl (z, e)) ↦ inr (i, lt, inl (z, e))
      | inr (inr (inl e)) ↦ absurd (subst (Follows Can (Same []) (ts i).held) e (all i lt))
      | inr (inr (inr (c, k, e))) ↦
          elim (call-cases (ts i).held c k
            (subst (Follows Can (Same []) (ts i).held) e (all i lt))) [
              | inl possible ↦ inr (i, lt, inr (c, k, e, possible))
              | inr (x, above, (j, lt', holds)) ↦
                  inr (holder_moves (suc (total n)) x j lt' holds (omega arith))
            ]
    ]

    all_or_one : (k : ℕ) → k ≤ n → ((i : ℕ) → i < k → IsDone i) ⊎ CanGoOn
    all_or_one zero h = inl (λ i lt. absurd (omega arith))
    all_or_one (suc k) h = elim (thread_moves k (omega arith)) [
      | inr moves ↦ inr moves
      | inl done ↦ elim (all_or_one k (omega arith)) [
        | inr moves ↦ inr moves
        | inl before ↦
            inl
              (λ i lt. elim (lt-cases i k lt) [ inl same ↦ rw same done | inr lt' ↦ before i lt' ])
      ]
    ]

    -- Either all threads are done, or one moves.
    pub progress : ((i : ℕ) → i < n → IsDone i) ⊎ CanGoOn
    progress = all_or_one n (omega arith)
