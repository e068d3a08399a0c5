-- ===== src/Server/Pool/Orderly.antt =====
-- What the main thread and the offices of server_f/server.c keep while they share the queue.
use home_banking_system.Base.{
  ℕ, ◌≤◌, ◌<◌, ◌≡◌, sym, ap, ◌∙◌, false, List, [], ◌∷◌, ◌++◌, length, arith, append-nil, Bool-cases,
  inl, inr,
}
use home_banking_system.Server.Pool.{Office, State, Trace, initial, AllLeft}
use home_banking_system.Server.Pool.Counts.{count, has_left, saw_empty, count-AllLeft}
use home_banking_system.Server.Pool.Invariant.{is_late}
use home_banking_system.Server.Pool.Invariant.Steps.{run-Sound, initial-Sound}

left-le_saw : (os : List Office) → count has_left os ≤ count saw_empty os
left-le_saw [] = omega arith
left-le_saw (o ∷ os) = omega (arith, left-le_saw os, one_lem o)
  where
    one_lem : (o : Office) → has_left o ≤ saw_empty o
    one_lem o = ground arith

-- In every state that a server with `n` offices reaches in any order of steps: the requests that were
-- taken off the queue and those still on it are, in this order, those that were put on it, each once;
-- no more than `n` are on it; as long as the main thread is in its loop no office has left and no
-- office has found the queue empty, which would end the process; and once an office has left, the
-- queue is empty.
pub pool_keeps :
    (n k : ℕ) (x : State)
    → Trace n k (initial n) x
    → (x.shared.accepted ≡ x.shared.taken ++ x.shared.queue)
      × (length x.shared.queue ≤ n)
      × (is_late x.producer ≡ false → (x.shared.ended ≡ false) × (count has_left x.offices ≡ 0))
      × (0 < count has_left x.offices → x.shared.queue ≡ [])
pool_keeps n k x runs =
    let h = run-Sound n k (initial n) x runs (initial-Sound n) in
    (
      h.fifo,
      omega (arith, h.places),
      λ in_loop. (
        elim (Bool-cases x.shared.ended) [
          | inl e ↦ absurd (ground (arith, h.ends e, in_loop))
          | inr e ↦ e
        ],
        omega (arith, h.early in_loop, left-le_saw x.offices),
      ),
      λ some_left. h.drained (omega (arith, left-le_saw x.offices)),
    )

-- When all offices of a server with at least one have left, in whatever order of steps, every request
-- that was put on the queue has been taken off it by an office, in the order in which they were put.
pub pool_drains :
    (n k : ℕ) (x : State)
    → Trace n k (initial n) x
    → 0 < n
    → AllLeft x.offices
    → x.shared.taken ≡ x.shared.accepted
pool_drains n k x runs some_office all_left =
    let h = run-Sound n k (initial n) x runs (initial-Sound n) in
    let none_left =
      h.drained (omega (arith, count-AllLeft x.offices all_left, h.size, left-le_saw x.offices)) in
    sym (h.fifo ∙ ap (λ q. x.shared.taken ++ q) none_left ∙ append-nil x.shared.taken)
