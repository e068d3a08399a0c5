-- ===== src/Server/Main/Discipline.antt =====
-- The loop of the server's main thread on every path, whatever the offices do.
use home_banking_system.Base.{
  ℕ, zero, suc, ◌≤◌, ◌≡◌, refl, subst, true, false, ◌&&◌, not, Option, none, some, [], ◌∷◌, leb,
  arith, Option-cases, inl, inr,
}
use home_banking_system.Base.Int.{ℤ, is_neg, is_pos, not_zero}
use home_banking_system.Types.{OpType, TlvRequest, role_producer}
use home_banking_system.Os.{
  req_queue_mutex, full, empty, Call, Answer, ret, do_call, queue_push, malloc_request, read_length,
  undefined,
}
use home_banking_system.Shared.Protocol.Pipe.{read_request_into, read_value_into, value_size}
use home_banking_system.Server.Paths.{
  Follows, Follows-then, Follows-if, Follows-and_then, Same, Keeps,
}
use home_banking_system.Server.SyncLog.{sync_log_request}
use home_banking_system.Server.Sync.{
  stdout_fileno, wait_sem_empty, post_sem_full, unlock_queue_mutex,
}
use home_banking_system.Server.Requests.Discipline.{IsFair}
use home_banking_system.Server.Main.{
  produce, produce_at, after_read, main_round, main_loop, main_thread,
}
use home_banking_system.Server.Office.Queue.{
  wait_sem-Follows, post_sem-Follows, unlock_queue_mutex-Follows, or_exit-Follows, or_exit_locked,
}
use home_banking_system.Server.Office.Replies.{sync_log_request-Follows}

-- What is relied on about the pipe: `malloc` gives memory, and a length that is read from the pipe is
-- not above that of the memory for a value.
pub record IsFed (Can : (c : Call) → Answer c → Type 0) : Type 0 where
  pub memory : Can malloc_request none → ⊥
  pub lengths : (fd z : ℤ) (n : ℕ) → Can (read_length fd) (z, n) → is_pos z ≡ true → n ≤ value_size

-- There is a request in memory.
abbrev HasMemory : ℤ × Option TlvRequest → Type 0
HasMemory got = (r : TlvRequest) × (got.1 ≡ some r)

module _ (Can : (c : Call) → Answer c → Type 0) (fair : IsFair Can) where
  produce-Follows : (r : TlvRequest) → Follows Can (Same []) [] (produce r)
  unfolding produce wait_sem_empty post_sem_full
  produce-Follows r =
      let pid = r.value.header.pid in
      Follows-then Can (Same []) [] [] (sync_log_request stdout_fileno main_thread r) _
        (sync_log_request-Follows Can fair stdout_fileno main_thread r)
        (λ _.
          or_exit-Follows Can fair.unlocks (Same []) [] [] (wait_sem_empty main_thread pid) _
            (wait_sem-Follows Can fair.unlocks empty role_producer main_thread pid)
            (or_exit_locked Can fair.unlocks (Same []) main_thread role_producer pid _ (
              or_exit-Follows Can fair.unlocks (Same []) (req_queue_mutex ∷ [])
                (req_queue_mutex ∷ []) (do_call (queue_push r)) _ (refl, λ n _. refl)
                (or_exit-Follows Can fair.unlocks (Same []) (req_queue_mutex ∷ []) []
                  (unlock_queue_mutex main_thread role_producer pid) _
                  (unlock_queue_mutex-Follows Can fair.unlocks main_thread role_producer pid)
                  (or_exit-Follows Can fair.unlocks (Same []) [] [] (post_sem_full main_thread pid)
                    _ (post_sem-Follows Can fair.unlocks full role_producer main_thread pid)
                    refl)))))

  after_read-Follows :
      (got : ℤ × Option TlvRequest) → HasMemory got → Follows Can (Same []) [] (after_read got)
  unfolding after_read produce_at
  after_read-Follows got (r, e) =
      Follows-if Can (Same []) [] (is_neg got.0) (ret false) _ (λ _. refl)
        (λ _. (
          tt,
          λ opened _.
              Follows-if Can (Same []) [] (not opened && not (not_zero got.0)) (ret false) _
                (λ _. refl)
                (λ _.
                  rw e (
                    Follows-then Can (Same []) [] [] (produce r) _ (produce-Follows r)
                      (λ _. refl))),
        ))

  module _ (fed : IsFed Can) (fd : ℤ) (m : TlvRequest) where
    read_value_into-Follows :
        (type : OpType) (n : ℕ)
        → n ≤ value_size
        → Follows Can (Keeps HasMemory []) [] (read_value_into fd type n (some m))
    unfolding read_value_into
    read_value_into-Follows type n fits =
        Follows-if Can (Keeps HasMemory []) [] (leb n value_size) _ undefined
          (λ _. (
            tt,
            λ got _.
                Follows-if Can (Keeps HasMemory []) [] (is_pos got.0) _ _ (λ _. (refl, (_, refl)))
                  (λ _. (refl, (_, refl))),
          ))
          (λ e. absurd (ground arith))

    read_request_into-Follows : Follows Can (Keeps HasMemory []) [] (read_request_into fd (some m))
    unfolding read_request_into
    read_request_into-Follows = (
      tt,
      λ type _.
          Follows-if Can (Keeps HasMemory []) [] (not (is_pos type.0)) _ _ (λ _. (refl, (_, refl)))
            (λ _. (
              tt,
              λ length can.
                  Follows-if Can (Keeps HasMemory []) [] (not (is_pos length.0)) _ _
                    (λ _. (refl, (_, refl)))
                    (λ e.
                      read_value_into-Follows type.1 length.1
                        (fed.lengths fd length.0 length.1 can (ground arith))),
            )),
    )

  main_round-Follows : (srv : ℤ) → IsFed Can → Follows Can (Same []) [] (main_round srv)
  unfolding main_round
  main_round-Follows srv fed = (
    tt,
    λ memory can. elim (Option-cases memory) [
      | inl e ↦ absurd (fed.memory (subst (Can malloc_request) e can))
      | inr (m, e) ↦ rw e (
          Follows-and_then Can HasMemory (Same []) [] [] (read_request_into srv (some m)) after_read
            (read_request_into-Follows fed srv m) after_read-Follows)
    ],
  )

pub main_loop-Follows :
    (Can : (c : Call) → Answer c → Type 0) (k : ℕ) (srv : ℤ)
    → IsFair Can
    → IsFed Can
    → Follows Can (Same []) [] (main_loop k srv)
unfolding main_loop
main_loop-Follows Can zero srv fair fed = refl
main_loop-Follows Can (suc k) srv fair fed =
    Follows-then Can (Same []) [] [] (main_round srv) _ (main_round-Follows Can fair srv fed)
      (λ more.
        Follows-if Can (Same []) [] more (main_loop k srv) (ret true)
          (λ _. main_loop-Follows Can k srv fair fed) (λ _. refl))
