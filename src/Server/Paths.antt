-- ===== src/Server/Paths.antt =====
-- The paths through a program, whatever its calls answer and whatever other threads do meanwhile:
-- the mutexes held on the way, and the rules that each call has to keep.
pub mod Accounts
pub mod Crypto
use home_banking_system.Base.{
  ℕ, ◌+◌, ◌<◌, ◌≡◌, refl, sym, subst, Bool, true, false, Bool-cases, inl, inr, List, [], ◌∷◌,
  if◌then◌else◌, length,
}
use home_banking_system.Base.Int.{ℤ, pos, not_zero}
use home_banking_system.Types.{Account, max_bank_accounts, hash_len, salt_len}
use home_banking_system.Os.{
  Mutex, log_mutex, req_queue_mutex, active_office_mutex, accounts_db_mutex, Call, Answer,
  mutex_lock, mutex_unlock, store, store_active_offices, queue_push, queue_front, queue_pop,
  is_queue_empty, Prog, ret, exits, undefined, call, ◌>>=◌,
}
use home_banking_system.Os.Run.{is_held, release}

-- The order in which mutexes are taken: the accounts' by their numbers, and the log's last.
abbrev pub rank : Mutex → ℕ
rank req_queue_mutex = 0
rank active_office_mutex = 1
rank (accounts_db_mutex i) = i + 2
rank log_mutex = max_bank_accounts + 2

abbrev pub IsAbove : Mutex → List Mutex → Type 0
IsAbove m [] = Unit
IsAbove m (n ∷ ns) = (rank n < rank m) × IsAbove m ns

-- The arrays of an account have their sizes.
abbrev pub HasArrays : Account → Type 0
HasArrays a = (length a.hash ≡ hash_len + 1) × (length a.salt ≡ salt_len + 3)

-- A mutex is taken above all that are held, so never twice; only a held one is given back; an
-- account is written only under its mutex and with arrays of the right sizes, and the counter of
-- offices only under its own; the queue is used only under its mutex.
abbrev pub IsAllowed : Call → List Mutex → Type 0
IsAllowed (mutex_lock m) held = IsAbove m held
IsAllowed (mutex_unlock m) held = is_held m held ≡ true
IsAllowed (store i a) held = (is_held (accounts_db_mutex i) held ≡ true) × HasArrays a
IsAllowed (store_active_offices n) held = is_held active_office_mutex held ≡ true
IsAllowed (queue_push r) held = is_held req_queue_mutex held ≡ true
IsAllowed queue_front held = is_held req_queue_mutex held ≡ true
IsAllowed queue_pop held = is_held req_queue_mutex held ≡ true
IsAllowed is_queue_empty held = is_held req_queue_mutex held ≡ true
IsAllowed _ held = Unit

abbrev pub held_after : (c : Call) → Answer c → List Mutex → List Mutex
held_after (mutex_lock m) r held = if not_zero r then held else m ∷ held
held_after (mutex_unlock m) r held = if not_zero r then held else release m held
held_after _ r held = held

-- Every path keeps the rules, none is undefined, and one that returns does so with `Post`. `Can`
-- says which answers a call can give.
abbrev pub Follows :
    {A : Type 0}
    → ((c : Call) → Answer c → Type 0)
    → (A → List Mutex → Type 0)
    → List Mutex
    → Prog A
    → Type 0
Follows Can Post held (ret a) = Post a held
Follows Can Post held (exits z) = Unit
Follows Can Post held undefined = ⊥
Follows Can Post held (call c k) =
    IsAllowed c held × ((r : Answer c) → Can c r → Follows Can Post (held_after c r held) (k r))

-- Exactly these are held.
abbrev pub Same : {A : Type 0} → List Mutex → A → List Mutex → Type 0
Same held a h = h ≡ held

-- And the result is as `P` says.
abbrev pub Keeps : {A : Type 0} → (A → Type 0) → List Mutex → A → List Mutex → Type 0
Keeps P held a h = (h ≡ held) × P a

module _ (Can : (c : Call) → Answer c → Type 0) where
  pub Follows->>= :
      {A B : Type 0} (P : A → List Mutex → Type 0) (Q : B → List Mutex → Type 0) (held : List Mutex)
      (m : Prog A) (f : A → Prog B)
      → Follows Can P held m
      → ((a : A) (h : List Mutex) → P a h → Follows Can Q h (f a))
      → Follows Can Q held (m >>= f)
  Follows->>= P Q held (ret a) f p next = next a held p
  Follows->>= P Q held (exits z) f p next = tt
  Follows->>= P Q held undefined f p next = absurd p
  Follows->>= P Q held (call c k) f p next =
      (p.0, λ r can. Follows->>= P Q (held_after c r held) (k r) f (p.1 r can) next)

  pub Follows-mono :
      {A : Type 0} (P Q : A → List Mutex → Type 0) (held : List Mutex) (m : Prog A)
      → ((a : A) (h : List Mutex) → P a h → Q a h)
      → Follows Can P held m
      → Follows Can Q held m
  Follows-mono P Q held (ret a) w p = w a held p
  Follows-mono P Q held (exits z) w p = tt
  Follows-mono P Q held undefined w p = absurd p
  Follows-mono P Q held (call c k) w p =
      (p.0, λ r can. Follows-mono P Q (held_after c r held) (k r) w (p.1 r can))

  -- The first part leaves `after` held, on whatever path.
  pub Follows-then :
      {A B : Type 0} (Q : B → List Mutex → Type 0) (held after : List Mutex) (m : Prog A)
      (f : A → Prog B)
      → Follows Can (Same after) held m
      → ((a : A) → Follows Can Q after (f a))
      → Follows Can Q held (m >>= f)
  Follows-then {A} Q held after m f p next =
      Follows->>= {A = A} (Same after) Q held m f p (λ a h same. rw same (next a))

  -- The same, with what the first part says of its result.
  pub Follows-and_then :
      {A B : Type 0} (P : A → Type 0) (Q : B → List Mutex → Type 0) (held after : List Mutex)
      (m : Prog A) (f : A → Prog B)
      → Follows Can (Keeps P after) held m
      → ((a : A) → P a → Follows Can Q after (f a))
      → Follows Can Q held (m >>= f)
  Follows-and_then P Q held after m f p next =
      Follows->>= (Keeps P after) Q held m f p (λ a h kept. rw (kept.0) (next a (kept.1)))

  pub Follows-if :
      {A : Type 0} (P : A → List Mutex → Type 0) (held : List Mutex) (b : Bool) (p q : Prog A)
      → (b ≡ true → Follows Can P held p)
      → (b ≡ false → Follows Can P held q)
      → Follows Can P held (if b then p else q)
  Follows-if P held true p q hp hq = hp refl
  Follows-if P held false p q hp hq = hq refl

  -- A lock that fails leaves what was held.
  pub Follows-lock :
      {A : Type 0} (P : A → List Mutex → Type 0) (m : Mutex) (held : List Mutex) (k : ℤ → Prog A)
      → IsAbove m held
      → ((r : ℤ) → not_zero r ≡ true → Follows Can P held (k r))
      → ((r : ℤ) → not_zero r ≡ false → Follows Can P (m ∷ held) (k r))
      → Follows Can P held (call (mutex_lock m) k)
  Follows-lock P m held k above fails taken = (
    above,
    λ r can. elim (Bool-cases (not_zero r)) [ inl e ↦ rw e (fails r e) | inr e ↦ rw e (taken r e) ],
  )

  -- A mutex that is held is given back, where that cannot fail.
  pub Follows-unlock :
      {A : Type 0} (P : A → List Mutex → Type 0) (m : Mutex) (held after : List Mutex)
      (k : ℤ → Prog A)
      → ((r : ℤ) → Can (mutex_unlock m) r → r ≡ pos 0)
      → is_held m held ≡ true
      → release m held ≡ after
      → Follows Can P after (k (pos 0))
      → Follows Can P held (call (mutex_unlock m) k)
  Follows-unlock P m held after k unlocks is leaves rest = (
    is,
    λ r can.
        subst (λ r. Follows Can P (held_after (mutex_unlock m) r held) (k r)) (sym (unlocks r can))
          (subst (λ h. Follows Can P h (k (pos 0))) (sym leaves) rest),
  )
