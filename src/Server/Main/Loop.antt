-- ===== src/Server/Main/Loop.antt =====
-- A round of the loop of the server's main thread (server_f/server.c), when no call fails and no other
-- thread intervenes.
use home_banking_system.Base.{
  ◌+◌, ◌-◌, ◌<◌, ◌≡◌, refl, Bool, true, false, some, List, [], ◌∷◌, ◌++◌, length, arith,
}
use home_banking_system.Base.Int.{ℤ, pos}
use home_banking_system.Types.{TlvRequest, role_producer}
use home_banking_system.Os.{req_queue_mutex, do_call, load_balcony_open, malloc_request}
use home_banking_system.Shared.Protocol.Pipe.{read_request_into}
use home_banking_system.Os.Run.{Env, Sys, run, reliable, Ends}
use home_banking_system.Server.Sync.{stdout_fileno, wait_sem_empty, post_sem_full}
use home_banking_system.Server.SyncLog.{sync_log_request}
use home_banking_system.Server.Main.{main_round, after_read, produce, produce_at, main_thread}
use home_banking_system.Server.Office.Steps.{
  Situation, At, Ends-bind, Ends-ret, HasSize, malloc-At, balcony_open-At, read_request-At,
  read_end-At, or_exit-Reaches, wait_empty-Reaches, post_full-Reaches, lock_queue-Reaches,
  unlock_queue-Reaches, push-Reaches, sync_log_request-At,
}

-- A request more on the queue.
abbrev pub produced : TlvRequest → Situation → Situation
produced r x = record x {
  queue = x.queue ++ r ∷ [];
  full_value = x.full_value + 1;
  empty_value = x.empty_value - 1;
  held = [];
}

module _ (env : Env) where
  produce-At :
      (x : Situation) (s : Sys) (r : TlvRequest)
      → At x s
      → x.held ≡ []
      → 0 < x.empty_value
      → Ends (λ _ t. At (produced r x) t) (run (reliable env) (produce r) s)
  unfolding produce wait_sem_empty post_sem_full
  produce-At x s r at free some_left =
      let pid = r.value.header.pid in
      let Q : Unit {0} → Sys → Type 0 = λ _ t. At (produced r x) t in
      let x1 = record x { empty_value = x.empty_value - 1 } in
      let x2 = record x1 { held = req_queue_mutex ∷ [] } in
      let x3 = record x2 { queue = x.queue ++ r ∷ [] } in
      let x4 = record x3 { held = [] } in
      Ends-bind (λ _ t. At x t) Q (reliable env) (sync_log_request stdout_fileno main_thread r) _ s
        (sync_log_request-At env x s stdout_fileno main_thread r at free)
        (λ _ s0 at0.
          or_exit-Reaches env x1 Q _ _ s0
            (wait_empty-Reaches env main_thread pid role_producer x s0 at0 free some_left)
            (λ s1 at1.
              or_exit-Reaches env x2 Q _ _ s1
                (lock_queue-Reaches env main_thread pid role_producer x1 s1 at1 free)
                (λ s2 at2. or_exit-Reaches env x3 Q _ _ s2 (push-Reaches env x2 s2 r at2) (λ s3 at3.
                  or_exit-Reaches env x4 Q _ _ s3
                    (unlock_queue-Reaches env main_thread pid role_producer x3 s3 at3 refl)
                    (λ s4 at4.
                      or_exit-Reaches env (record x4 { full_value = x.full_value + 1 }) Q _ _ s4
                        (post_full-Reaches env main_thread pid role_producer x4 s4 at4 refl)
                        (λ s5 at5. Ends-ret Q (reliable env) tt s5 at5))))))

-- What a round makes of the requests on the pipe: whether the loop goes on, and the situation after.
abbrev pub IsRound : Situation → Bool → List TlvRequest → Bool → Sys → Type 0
IsRound x true (r ∷ rs) more t = (more ≡ true) × At (produced r (record x { incoming = rs })) t
IsRound x true [] more t = ⊥
IsRound x false (r ∷ rs) more t = (more ≡ false) × At (record x { incoming = rs }) t
IsRound x false [] more t = (more ≡ false) × At x t

module _ (env : Env) where
  round_over :
      (r : TlvRequest) (y : Situation) (t : Sys)
      → At y t
      → y.balcony_open ≡ false
      → Ends (λ more t. (more ≡ false) × At y t) (run (reliable env) (after_read (pos 0, some r)) t)
  unfolding after_read
  round_over r y t at closed =
      let Q : Bool → Sys → Type 0 = λ more t. (more ≡ false) × At y t in
      Ends-bind (λ b t. (b ≡ false) × At y t) Q (reliable env) (do_call load_balcony_open) _ t
        (balcony_open-At env y t false at closed)
        (λ b t (e, at). rw e (Ends-ret Q (reliable env) false t (refl, at)))

  round_on :
      (r : TlvRequest) (y : Situation) (t : Sys)
      → At y t
      → y.balcony_open ≡ true
      → y.held ≡ []
      → 0 < y.empty_value
      → Ends
          (λ more t. (more ≡ true) × At (produced r y) t)
          (run (reliable env) (after_read (pos 0, some r)) t)
  unfolding after_read produce_at
  round_on r y t at opened none_held some_left =
      let Q : Bool → Sys → Type 0 = λ more t. (more ≡ true) × At (produced r y) t in
      Ends-bind (λ b t. (b ≡ true) × At y t) Q (reliable env) (do_call load_balcony_open) _ t
        (balcony_open-At env y t true at opened)
        (λ b t (e, at). rw e (
          Ends-bind (λ _ t. At (produced r y) t) Q (reliable env) (produce r) _ t
            (produce-At env y t r at none_held some_left)
            (λ _ t at. Ends-ret Q (reliable env) true t (refl, at))))

module _ (env : Env) (srv : ℤ) (x : Situation) (s : Sys) (at : At x s) where
  -- What `read_request` makes of the memory that `malloc` gave, and then the rest of the round.
  received :
      (m : TlvRequest) (y : Situation) (Q : Bool → Sys → Type 0)
      → ((t : Sys)
          → At x t
          → Ends
              (λ got t. (got ≡ (pos 0, some m)) × At y t)
              (run (reliable env) (read_request_into srv (some env.garbage)) t))
      → ((t : Sys) → At y t → Ends Q (run (reliable env) (after_read (pos 0, some m)) t))
      → Ends Q (run (reliable env) (main_round srv) s)
  unfolding main_round
  received m y Q reads next =
      Ends-bind (λ memory t. (memory ≡ some env.garbage) × At x t) Q (reliable env)
        (do_call malloc_request) _ s (malloc-At env x s at)
        (λ memory t (e, at). rw e (
          Ends-bind (λ got t. (got ≡ (pos 0, some m)) × At y t) Q (reliable env)
            (read_request_into srv (some env.garbage)) after_read t (reads t at)
            (λ got t (e, at). rw e (next t at))))

  read_then :
      (r : TlvRequest) (rs : List TlvRequest) (Q : Bool → Sys → Type 0)
      → x.incoming ≡ r ∷ rs
      → HasSize r
      → ((t : Sys)
          → At (record x { incoming = rs }) t
          → Ends Q (run (reliable env) (after_read (pos 0, some r)) t))
      → Ends Q (run (reliable env) (main_round srv) s)
  read_then r rs Q waiting sized next =
      received r (record x { incoming = rs }) Q
        (λ t at. read_request-At env x srv r rs waiting t env.garbage at sized) next

-- The first request that waits has a length of its own, which its memory has room for.
abbrev pub FirstFits : List TlvRequest → Type 0
FirstFits [] = Unit
FirstFits (r ∷ rs) = HasSize r

-- A round of the main thread's loop when no call fails, with the queue's count and mutex as the
-- situation `x` says, no mutex held, the length of the first request on the pipe, if there is one, from 1
-- to the 62 bytes of the memory for a value, and, if the bank is open, a request on the pipe and room for it:
-- an open bank's round takes the first request off the pipe, adds it at the end of the queue, moves one
-- from the count of free places to that of requests, and goes on; a closed bank's round ends the loop,
-- and a request that it has read from the pipe is on no queue afterwards.
pub main_round_lem :
    (env : Env) (srv : ℤ) (opened : Bool) (rs : List TlvRequest) (x : Situation) (s : Sys)
    → At x s
    → x.held ≡ []
    → x.balcony_open ≡ opened
    → x.incoming ≡ rs
    → FirstFits rs
    → (opened ≡ true → (0 < length rs) × (0 < x.empty_value))
    → Ends (IsRound x opened rs) (run (reliable env) (main_round srv) s)
main_round_lem env srv true [] x s at free is_open waiting fits room =
    absurd (ground (arith, room refl))
main_round_lem env srv true (r ∷ rs) x s at free is_open waiting fits room =
    read_then env srv x s at r rs (IsRound x true (r ∷ rs)) waiting fits
      (λ t at. round_on env r (record x { incoming = rs }) t at is_open free ((room refl).1))
main_round_lem env srv false (r ∷ rs) x s at free is_open waiting fits room =
    read_then env srv x s at r rs (IsRound x false (r ∷ rs)) waiting fits
      (λ t at. round_over env r (record x { incoming = rs }) t at is_open)
main_round_lem env srv false [] x s at free is_open waiting fits room =
    received env srv x s at env.garbage x (IsRound x false [])
      (λ t at. read_end-At env x t srv env.garbage at waiting is_open)
      (λ t at. round_over env env.garbage x t at is_open)
