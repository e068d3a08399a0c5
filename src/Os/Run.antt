-- ===== src/Os/Run.antt =====
-- A run of one thread, while no other writes what it reads. Which calls fail, and with what code,
-- what `rand` and uninitialised memory give, and what `sha256sum` prints, is up to `Env`.
use home_banking_system.Base.{
  ℕ, zero, suc, ◌+◌, ◌-◌, ◌≡◌, refl, sym, ap, subst, ◌∙◌, fun_ext, Bool, true, false, ◌||◌, none,
  some, List, [], ◌∷◌, ◌++◌, ◌==◌, if◌then◌else◌, take, length,
}
use home_banking_system.Base.Int.{ℤ, pos, negsuc}
use home_banking_system.Types.{Account, TlvRequest}
use home_banking_system.Os.Calls.{
  Mutex, log_mutex, req_queue_mutex, active_office_mutex, accounts_db_mutex, Sem, full, empty, Line,
  Call, Answer, mutex_lock, mutex_unlock, sem_wait, sem_post, sem_getvalue, print, usleep, load,
  store, load_balcony_open, load_active_offices, store_balcony_open, store_active_offices, close,
  fchmod, rand, uninit, fork, write_pipe, read_pipe,
}
use home_banking_system.Os.Programs.{Prog, ret, exits, undefined, call, ◌>>=◌}

-- Exactly `n` bytes.
abbrev pub sized : ℕ → List ℕ → List ℕ
sized zero bs = []
sized (suc n) [] = 0 ∷ sized n []
sized (suc n) (b ∷ bs) = b ∷ sized n bs

pub length-sized : (n : ℕ) (bs : List ℕ) → length (sized n bs) ≡ n
length-sized zero bs = refl
length-sized (suc n) [] = ap suc (length-sized n [])
length-sized (suc n) (b ∷ bs) = ap suc (length-sized n bs)

-- What `sha256sum` prints behind the digest of its standard input: two spaces, a dash, a newline.
abbrev pub stdin_name : List ℕ
stdin_name = 32 ∷ 32 ∷ b'-' ∷ 10 ∷ []

-- `fails n` says whether the call made after `n` others fails. `sha256sum` gives the digits.
pub record Env : Type 0 where
  pub fails : ℕ → Bool
  pub number : ℕ → ℕ
  pub bytes : ℕ → List ℕ
  pub sha256sum : List ℕ → List ℕ
  pub garbage : TlvRequest

pub record Sys : Type 0 where
  pub accounts : ℕ → Account
  pub held : List Mutex
  pub full_value : ℕ
  pub empty_value : ℕ
  pub balcony_open : Bool
  pub active_offices : ℕ
  pub closed : List ℤ
  pub modes : List (ℤ × ℕ)
  pub log : List (ℤ × Line)
  pub piped : List ℕ
  pub incoming : List TlvRequest
  pub queue : List TlvRequest
  pub written : List (ℤ × List ℕ)
  pub calls : ℕ

pub data Outcome (A : Type 0) : Type 0 where
  done : A → Sys → Outcome A
  exited : ℤ → Sys → Outcome A
  blocked : Sys → Outcome A
  faulted : Sys → Outcome A

abbrev pub final : {A : Type 0} → Outcome A → Sys
final (done a s) = s
final (exited z s) = s
final (blocked s) = s
final (faulted s) = s

abbrev pub mutex_eq : Mutex → Mutex → Bool
mutex_eq log_mutex log_mutex = true
mutex_eq req_queue_mutex req_queue_mutex = true
mutex_eq active_office_mutex active_office_mutex = true
mutex_eq (accounts_db_mutex i) (accounts_db_mutex j) = i == j
mutex_eq _ _ = false

abbrev pub is_held : Mutex → List Mutex → Bool
is_held m [] = false
is_held m (n ∷ ns) = mutex_eq m n || is_held m ns

abbrev pub release : Mutex → List Mutex → List Mutex
release m [] = []
release m (n ∷ ns) = if mutex_eq m n then ns else n ∷ release m ns

abbrev pub update {ℓ} : {A : Type ℓ} → (ℕ → A) → ℕ → A → ℕ → A
update f i a j = if i == j then a else f j

abbrev pub tick : Sys → Sys
tick s = record s { calls = suc s.calls }

-- A call that either fails, with code `e` and no effect, or goes on to `success`.
abbrev pub attempt : Env → Sys → ℤ → Outcome ℤ → Outcome ℤ
attempt env s e success = if env.fails s.calls then done e (tick s) else success

-- The pthread functions return a positive error code.
abbrev pub errno : Env → Sys → ℤ
errno env s = pos (suc (env.number s.calls))

abbrev pub value_of : Sem → Sys → ℕ
value_of full s = s.full_value
value_of empty s = s.empty_value

abbrev pub set_value : Sem → ℕ → Sys → Sys
set_value full n s = record s { full_value = n }
set_value empty n s = record s { empty_value = n }

-- A thread that locks a mutex which it holds waits for itself; one that unlocks a mutex which it
-- does not hold is undefined. `sem_wait` at zero waits.
unfoldable pub perform : Env → (c : Call) → Sys → Outcome (Answer c)
perform env (mutex_lock m) s =
    attempt env s (errno env s)
      (if is_held m s.held then blocked s else done (pos 0) (record (tick s) { held = m ∷ s.held }))
perform env (mutex_unlock m) s = attempt env s (errno env s) (
    if is_held m s.held
    then done (pos 0) (record (tick s) { held = release m s.held })
    else faulted s)
perform env (sem_wait m) s = attempt env s (negsuc 0) (
    if value_of m s == 0 then blocked s else done (pos 0) (set_value m (value_of m s - 1) (tick s)))
perform env (sem_post m) s =
    attempt env s (negsuc 0) (done (pos 0) (set_value m (value_of m s + 1) (tick s)))
perform env (sem_getvalue m) s =
    if env.fails s.calls
    then done (negsuc 0, pos 0) (tick s)
    else done (pos 0, pos (value_of m s)) (tick s)
perform env (print fd l) s =
    attempt env s (negsuc 0)
      (done (pos (env.number s.calls)) (record (tick s) { log = (fd, l) ∷ s.log }))
perform env (usleep n) s = done tt (tick s)
perform env (load i) s = done (s.accounts i) s
perform env (store i a) s = done tt (record s { accounts = update s.accounts i a })
perform env load_balcony_open s = done s.balcony_open s
perform env load_active_offices s = done s.active_offices s
perform env (store_balcony_open b) s = done tt (record s { balcony_open = b })
perform env (store_active_offices n) s = done tt (record s { active_offices = n })
perform env (close fd) s =
    attempt env s (negsuc 0) (done (pos 0) (record (tick s) { closed = fd ∷ s.closed }))
perform env (fchmod fd mode) s =
    attempt env s (negsuc 0) (done (pos 0) (record (tick s) { modes = (fd, mode) ∷ s.modes }))
perform env rand s = done (env.number s.calls) (tick s)
perform env (uninit n) s = done (sized n (env.bytes s.calls)) (tick s)
perform env fork s = attempt env s (negsuc 0) (done (pos (suc (env.number s.calls))) (tick s))
perform env (write_pipe bs) s =
    attempt env s (negsuc 0) (done (pos (length bs)) (record (tick s) { piped = bs }))
perform env (read_pipe n) s =
    if env.fails s.calls
    then done (negsuc 0, []) (tick s)
    else let out = take n (env.sha256sum s.piped ++ stdin_name) in
      done (pos (length out), out) (record (tick s) { piped = [] })
-- Creating and destroying objects, and the calls on descriptors that only `gen_hash` sees.
perform env (Call.mutex_init m) s = attempt env s (errno env s) (done (pos 0) (tick s))
perform env (Call.mutex_destroy m) s = attempt env s (errno env s) (done (pos 0) (tick s))
perform env (Call.sem_init m n) s = attempt env s (negsuc 0) (done (pos 0) (set_value m n (tick s)))
perform env (Call.sem_destroy m) s = attempt env s (negsuc 0) (done (pos 0) (tick s))
perform env Call.pipe s = attempt env s (negsuc 0) (done (pos 0) (tick s))
perform env Call.waitpid s = attempt env s (negsuc 0) (done (pos 0) (tick s))
perform env Call.execlp s = attempt env s (negsuc 0) (exited (pos 0) (tick s))
perform env (Call.close_end n) s = attempt env s (negsuc 0) (done (pos 0) (tick s))
perform env (Call.dup2 m n) s = attempt env s (negsuc 0) (done (pos 0) (tick s))
-- The server's pipe has a writer, the server itself, as long as the bank is open; a request on
-- it leaves with the read of its value, the last of its three.
perform env Call.malloc_request s =
    if env.fails s.calls then done none (tick s) else done (some env.garbage) (tick s)
perform env (Call.read_type fd) s =
    if env.fails s.calls then done (negsuc 0, env.garbage.type) (tick s) else elim s.incoming [
      | [] ↦ if s.balcony_open then blocked s else done (pos 0, env.garbage.type) (tick s)
      | r ∷ rs ↦ done (pos 4, r.type) (tick s)
    ]
perform env (Call.read_length fd) s =
    if env.fails s.calls then done (negsuc 0, 0) (tick s) else elim s.incoming [
      | [] ↦ if s.balcony_open then blocked s else done (pos 0, 0) (tick s)
      | r ∷ rs ↦ done (pos 4, r.length) (tick s)
    ]
perform env (Call.read_value fd n) s =
    if env.fails s.calls then done (negsuc 0, env.garbage.value) (tick s) else elim s.incoming [
      | [] ↦ if s.balcony_open then blocked s else done (pos 0, env.garbage.value) (tick s)
      | r ∷ rs ↦ done (pos n, r.value) (record (tick s) { incoming = rs })
    ]
perform env (Call.queue_push r) s =
    attempt env s (negsuc 0) (done (pos 0) (record (tick s) { queue = s.queue ++ r ∷ [] }))
perform env Call.queue_front s = elim s.queue [ [] ↦ done none s | r ∷ rs ↦ done (some r) s ]
perform env Call.queue_pop s = elim s.queue [
  | [] ↦ done (negsuc 0) s
  | r ∷ rs ↦ done (pos 0) (record s { queue = rs })
]
perform env Call.is_queue_empty s = elim s.queue [ [] ↦ done (pos 1) s | r ∷ rs ↦ done (pos 0) s ]
perform env Call.del_queue s = done (pos 0) (record s { queue = [] })
perform env (Call.open_fifo name) s =
    attempt env s (negsuc 0) (done (pos (env.number s.calls)) (tick s))
perform env (Call.write fd bs) s =
    attempt env s (negsuc 0)
      (done (pos (length bs)) (record (tick s) { written = (fd, bs) ∷ s.written }))
perform env (Call.open_read name) s =
    attempt env s (negsuc 0) (done (pos (env.number s.calls)) (tick s))
perform env (Call.mkfifo name) s = attempt env s (negsuc 0) (done (pos 0) (tick s))
perform env (Call.unlink name) s = attempt env s (negsuc 0) (done (pos 0) (tick s))
perform env Call.open_log s = attempt env s (negsuc 0) (done (pos (env.number s.calls)) (tick s))
perform env Call.errno_is_eexist s = done (env.number s.calls == 17) s
perform env (Call.thread_create i) s = attempt env s (errno env s) (done (pos 0) (tick s))
perform env (Call.thread_join i) s = attempt env s (errno env s) (done (pos 0) (tick s))

abbrev pub and_then : {A B : Type 0} → Outcome A → (A → Sys → Outcome B) → Outcome B
and_then (done a s) f = f a s
and_then (exited z s) f = exited z s
and_then (blocked s) f = blocked s
and_then (faulted s) f = faulted s

unfoldable pub run : {A : Type 0} → Env → Prog A → Sys → Outcome A
unfolding perform
run env (ret a) s = done a s
run env (exits z) s = exited z s
run env undefined s = faulted s
run env (call c k) s = and_then (perform env c s) (λ r t. run env (k r) t)

and_then_assoc :
    {A B C : Type 0} (o : Outcome A) (f : A → Sys → Outcome B) (g : B → Sys → Outcome C)
    → and_then (and_then o f) g ≡ and_then o (λ a t. and_then (f a t) g)
and_then_assoc (done a s) f g = refl
and_then_assoc (exited z s) f g = refl
and_then_assoc (blocked s) f g = refl
and_then_assoc (faulted s) f g = refl

-- A program in two parts runs as its parts do, one after the other.
pub run->>= :
    {A B : Type 0} (env : Env) (m : Prog A) (f : A → Prog B) (s : Sys)
    → run env (m >>= f) s ≡ and_then (run env m s) (λ a t. run env (f a) t)
unfolding run
run->>= env (ret a) f s = refl
run->>= env (exits z) f s = refl
run->>= env undefined f s = refl
run->>= env (call c k) f s =
    ap (and_then (perform env c s)) (fun_ext λ r. fun_ext λ t. run->>= env (k r) f t)
    ∙ sym (and_then_assoc (perform env c s) (λ r t. run env (k r) t) (λ a t. run env (f a) t))

-- The same environment with no call that fails.
abbrev pub reliable : Env → Env
reliable env = record env { fails = λ _. false }

-- A run that returns, with a result and a state of which `P` holds.
abbrev pub Ends : {A : Type 0} → (A → Sys → Type 0) → Outcome A → Type 0
Ends P (done a s) = P a s
Ends P (exited z s) = ⊥
Ends P (blocked s) = ⊥
Ends P (faulted s) = ⊥

-- Once the first part has been seen to return, the run goes on with the second.
pub run_then :
    {A B : Type 0} (env : Env) (m : Prog A) (f : A → Prog B) (s : Sys) {a : A} {t : Sys}
    → run env m s ≡ done a t
    → run env (m >>= f) s ≡ run env (f a) t
run_then env m f s h = run->>= env m f s ∙ ap (λ o. and_then o (λ a t. run env (f a) t)) h

pub Ends-of_eq :
    {A : Type 0} {o o' : Outcome A} (P : A → Sys → Type 0) → o ≡ o' → Ends P o' → Ends P o
Ends-of_eq P e p = subst (Ends P) (sym e) p

pub Ends-mono :
    {A : Type 0} {P Q : A → Sys → Type 0} (o : Outcome A)
    → Ends P o
    → ((a : A) (s : Sys) → P a s → Q a s)
    → Ends Q o
Ends-mono (done a s) p weaken = weaken a s p
Ends-mono (exited z s) p weaken = p
Ends-mono (blocked s) p weaken = p
Ends-mono (faulted s) p weaken = p
