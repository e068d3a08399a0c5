-- ===== src/Server/Office/Steps.antt =====
-- What the server's threads do with the queue, its mutex and the semaphores, when no call fails and
-- no other thread intervenes.
use home_banking_system.Base.{
  ℕ, zero, suc, ◌+◌, ◌-◌, ◌≤◌, ◌<◌, leb, true, some, ◌≡◌, refl, ◌∙◌, Bool, Option, false, List, [],
  ◌∷◌, ◌++◌, arith,
}
use home_banking_system.Base.Int.{ℤ, pos, is_pos}
use home_banking_system.Shared.Protocol.Pipe.{read_request_into, read_value_into, value_size}
use home_banking_system.Types.{
  TlvRequest, ReqValue, OpType, create_account, balance, transfer, shutdown, other, SyncRole,
}
use home_banking_system.Os.{
  Mutex, req_queue_mutex, Prog, ret, ◌>>=◌, do_call, full, empty, load_balcony_open, malloc_request,
  read_type, read_length, read_value, queue_push,
}
use home_banking_system.Os.Run.{
  Env, Sys, Outcome, done, exited, blocked, faulted, and_then, run, reliable, Ends, run->>=,
  Ends-of_eq,
}
use home_banking_system.Server.Sync.{wait_sem, post_sem, lock_queue_mutex, unlock_queue_mutex}
use home_banking_system.Server.SyncLog.{sync_log_request}
use home_banking_system.Server.Office.{or_exit}

-- The part of the state that the threads share about the queue.
pub record Situation : Type 0 where
  pub queue : List TlvRequest
  pub incoming : List TlvRequest
  pub full_value : ℕ
  pub empty_value : ℕ
  pub balcony_open : Bool
  pub held : List Mutex

pub record At (x : Situation) (s : Sys) : Type 0 where
  pub queue : s.queue ≡ x.queue
  pub incoming : s.incoming ≡ x.incoming
  pub full_value : s.full_value ≡ x.full_value
  pub empty_value : s.empty_value ≡ x.empty_value
  pub balcony_open : s.balcony_open ≡ x.balcony_open
  pub held : s.held ≡ x.held

-- A length with which the value is read, and read within the memory for it.
abbrev pub HasSize : TlvRequest → Type 0
HasSize r = (0 < r.length) × (r.length ≤ value_size)

is_pos-pos : (n : ℕ) → 0 < n → is_pos (pos n) ≡ true
is_pos-pos zero h = absurd (omega arith)
is_pos-pos (suc n) h = refl

le→leb : (a b : ℕ) → a ≤ b → leb a b ≡ true
le→leb a b h = ground arith

-- A run that returns 0 in the situation.
abbrev pub Reaches : Situation → Outcome ℤ → Type 0
Reaches x = Ends (λ r t. (r ≡ pos 0) × At x t)

pub Ends-bind :
    {A B : Type 0} (P : A → Sys → Type 0) (Q : B → Sys → Type 0) (env : Env) (m : Prog A)
    (f : A → Prog B) (s : Sys)
    → Ends P (run env m s)
    → ((a : A) (t : Sys) → P a t → Ends Q (run env (f a) t))
    → Ends Q (run env (m >>= f) s)
Ends-bind {A} {B} P Q env m f s p next = Ends-of_eq Q (run->>= env m f s) (go (run env m s) p)
  where
    go : (o : Outcome A) → Ends P o → Ends Q (and_then o (λ a t. run env (f a) t))
    go (done a t) p = next a t p
    go (exited z t) p = absurd p
    go (blocked t) p = absurd p
    go (faulted t) p = absurd p

pub Ends-ret :
    {A : Type 0} (P : A → Sys → Type 0) (env : Env) (a : A) (s : Sys)
    → P a s
    → Ends P (run env (ret a) s)
unfolding run
Ends-ret P env a s p = p

module _ (env : Env) where
  pub or_exit-Reaches :
      {A : Type 0} (x : Situation) (Q : A → Sys → Type 0) (p : Prog ℤ) (rest : Prog A) (s : Sys)
      → Reaches x (run (reliable env) p s)
      → ((t : Sys) → At x t → Ends Q (run (reliable env) rest t))
      → Ends Q (run (reliable env) (or_exit p rest) s)
  or_exit-Reaches x Q p rest s reaches next =
      Ends-bind (λ r t. (r ≡ pos 0) × At x t) Q (reliable env) p _ s reaches
        (λ r t (e, at). rw e (next t at))

  module _ (id sid : ℤ) (role : SyncRole) (x : Situation) (s : Sys) (at : At x s) where
    pub wait_full-Reaches :
        x.held ≡ []
        → 0 < x.full_value
        → Reaches
            (record x { full_value = x.full_value - 1 })
            (run (reliable env) (wait_sem full role id sid) s)
    unfolding run wait_sem
    wait_full-Reaches free some_left = ground arith

    pub wait_empty-Reaches :
        x.held ≡ []
        → 0 < x.empty_value
        → Reaches
            (record x { empty_value = x.empty_value - 1 })
            (run (reliable env) (wait_sem empty role id sid) s)
    unfolding run wait_sem
    wait_empty-Reaches free some_left = ground arith

    pub post_full-Reaches :
        x.held ≡ []
        → Reaches
            (record x { full_value = x.full_value + 1 })
            (run (reliable env) (post_sem full role id sid) s)
    unfolding run post_sem
    post_full-Reaches free = ground arith

    pub post_empty-Reaches :
        x.held ≡ []
        → Reaches
            (record x { empty_value = x.empty_value + 1 })
            (run (reliable env) (post_sem empty role id sid) s)
    unfolding run post_sem
    post_empty-Reaches free = ground arith

    pub lock_queue-Reaches :
        x.held ≡ []
        → Reaches
            (record x { held = req_queue_mutex ∷ [] })
            (run (reliable env) (lock_queue_mutex id role sid) s)
    unfolding run lock_queue_mutex
    lock_queue-Reaches free = ground arith

    pub unlock_queue-Reaches :
        x.held ≡ req_queue_mutex ∷ []
        → Reaches (record x { held = [] }) (run (reliable env) (unlock_queue_mutex id role sid) s)
    unfolding run unlock_queue_mutex
    unlock_queue-Reaches mine = ground arith

  pub balcony_open-At :
      (x : Situation) (s : Sys) (opened : Bool)
      → At x s
      → x.balcony_open ≡ opened
      → Ends (λ b t. (b ≡ opened) × At x t) (run (reliable env) (do_call load_balcony_open) s)
  unfolding run
  balcony_open-At x s opened at e = (at.balcony_open ∙ e, at)

  pub malloc-At :
      (x : Situation) (s : Sys)
      → At x s
      → Ends
          (λ memory t. (memory ≡ some env.garbage) × At x t)
          (run (reliable env) (do_call malloc_request) s)
  unfolding run
  malloc-At x s at = (refl, ground arith)

  module _ (x : Situation) (srv : ℤ) (r : TlvRequest) (rs : List TlvRequest)
      (waiting : x.incoming ≡ r ∷ rs) where
    read_type-At :
        (s : Sys)
        → At x s
        → Ends
            (λ got t. (got ≡ (pos 4, r.type)) × At x t)
            (run (reliable env) (do_call (read_type srv)) s)
    unfolding run
    read_type-At s at = rw (at.incoming ∙ waiting) (refl, ground arith)

    read_length-At :
        (s : Sys)
        → At x s
        → Ends
            (λ got t. (got ≡ (pos 4, r.length)) × At x t)
            (run (reliable env) (do_call (read_length srv)) s)
    unfolding run
    read_length-At s at = rw (at.incoming ∙ waiting) (refl, ground arith)

    read_value-At :
        (s : Sys) (n : ℕ)
        → At x s
        → Ends
            (λ got t. (got ≡ (pos n, r.value)) × At (record x { incoming = rs }) t)
            (run (reliable env) (do_call (read_value srv n)) s)
    unfolding run
    read_value-At s n at = rw (at.incoming ∙ waiting) (refl, ground arith)

    pub read_request-At :
        (s : Sys) (m : TlvRequest)
        → At x s
        → HasSize r
        → Ends
            (λ got t. (got ≡ (pos 0, some r)) × At (record x { incoming = rs }) t)
            (run (reliable env) (read_request_into srv (some m)) s)
    unfolding read_request_into read_value_into
    read_request-At s m at (least, most) =
        let Q : ℤ × Option TlvRequest → Sys → Type 0 =
          λ got t. (got ≡ (pos 0, some r)) × At (record x { incoming = rs }) t in
        Ends-bind (λ got t. (got ≡ (pos 4, r.type)) × At x t) Q (reliable env)
          (do_call (read_type srv)) _ s (read_type-At s at)
          (λ type t (e, at). rw e (
            Ends-bind (λ got t. (got ≡ (pos 4, r.length)) × At x t) Q (reliable env)
              (do_call (read_length srv)) _ t (read_length-At t at)
              (λ length t (f, at).
                rw (f, le→leb r.length value_size most)
                  (Ends-bind
                    (λ got t. (got ≡ (pos r.length, r.value)) × At (record x { incoming = rs }) t) Q
                    (reliable env) (do_call (read_value srv r.length)) _ t
                    (read_value-At t r.length at)
                    (λ value t (g, at).
                      rw (g, is_pos-pos r.length least)
                        (Ends-ret Q (reliable env) (pos 0, some r) t (refl, at)))))))

  -- With the bank closed, the pipe has no writer left once its requests are read.
  pub read_end-At :
      (x : Situation) (s : Sys) (srv : ℤ) (m : TlvRequest)
      → At x s
      → x.incoming ≡ []
      → x.balcony_open ≡ false
      → Ends
          (λ got t. (got ≡ (pos 0, some m)) × At x t)
          (run (reliable env) (read_request_into srv (some m)) s)
  unfolding run read_request_into
  read_end-At x s srv m at none_left closed =
      rw (at.incoming ∙ none_left, at.balcony_open ∙ closed) (refl, ground arith)

  pub push-Reaches :
      (x : Situation) (s : Sys) (r : TlvRequest)
      → At x s
      → Reaches
          (record x { queue = x.queue ++ r ∷ [] })
          (run (reliable env) (do_call (queue_push r)) s)
  unfolding run
  push-Reaches x s r at = ground arith

  line-At :
      (x : Situation) (s : Sys) (fd id : ℤ) (type : OpType) (n : ℕ) (v : ReqValue)
      → At x s
      → x.held ≡ []
      → Ends
          (λ _ t. At x t)
          (run
            (reliable env)
            (sync_log_request fd id (record { type = type; length = n; value = v }))
            s)
  unfolding run sync_log_request
  line-At x s fd id create_account n v at free = ground arith
  line-At x s fd id balance n v at free = ground arith
  line-At x s fd id transfer n v at free = ground arith
  line-At x s fd id shutdown n v at free = ground arith
  line-At x s fd id (other m) n v at free = ground arith

  pub sync_log_request-At :
      (x : Situation) (s : Sys) (fd id : ℤ) (r : TlvRequest)
      → At x s
      → x.held ≡ []
      → Ends (λ _ t. At x t) (run (reliable env) (sync_log_request fd id r) s)
  sync_log_request-At x s fd id r at free = line-At x s fd id r.type r.length r.value at free
