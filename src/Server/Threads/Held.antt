-- ===== src/Server/Threads/Held.antt =====
-- The mutexes that a thread holds, and how a call changes them.
use home_banking_system.Base.{
  ℕ, ◌+◌, ◌≤◌, ◌<◌, ◌≡◌, true, List, [], ◌∷◌, arith, ◌⊎◌, inl, inr, Bool-cases,
}
use home_banking_system.Base.Int.{not_zero}
use home_banking_system.Os.{Mutex, Call, Answer, mutex_lock, mutex_unlock}
use home_banking_system.Os.Run.{is_held, release, mutex_eq}
use home_banking_system.Server.Paths.{rank, IsAbove, held_after}
use home_banking_system.Server.Threads.{Thread, IsFree, IsPossible}

pub mutex_eq_sound : (m n : Mutex) → mutex_eq m n ≡ true → m ≡ n
mutex_eq_sound m n h = ground arith

-- What is held is below what may be taken.
pub IsAbove-is_held :
    (m m' : Mutex) (held : List Mutex) → IsAbove m' held → is_held m held ≡ true → rank m < rank m'
IsAbove-is_held m m' [] above h = absurd (ground arith)
IsAbove-is_held m m' (x ∷ held) (lt, above) h = elim (Bool-cases (mutex_eq m x)) [
  | inl e ↦ let same = mutex_eq_sound m x e in rw same lt
  | inr e ↦ IsAbove-is_held m m' held above (ground arith)
]

-- The ranks of what is held, added up.
pub load_of : List Mutex → ℕ
load_of [] = 0
load_of (x ∷ held) = rank x + load_of held

pub rank-le : (m : Mutex) (held : List Mutex) → is_held m held ≡ true → rank m ≤ load_of held
unfolding load_of
rank-le m [] h = absurd (ground arith)
rank-le m (x ∷ held) h = elim (Bool-cases (mutex_eq m x)) [
  | inl e ↦ let same = mutex_eq_sound m x e in rw same (omega arith)
  | inr e ↦ omega (arith, rank-le m held (ground arith))
]

pub is_held-release :
    (m x : Mutex) (held : List Mutex) → is_held m (release x held) ≡ true → is_held m held ≡ true
is_held-release m x [] h = ground arith
is_held-release m x (y ∷ held) h = elim (Bool-cases (mutex_eq x y)) [
  | inl e ↦ ground arith
  | inr e ↦ ground (arith, is_held-release m x held)
]

-- What is held after a possible call was held before, or was free.
pub held_after-cases :
    {A : Type 0} (n : ℕ) (ts : ℕ → Thread A) (c : Call) (r : Answer c) (held : List Mutex)
    (m : Mutex)
    → IsPossible n ts c r
    → is_held m (held_after c r held) ≡ true
    → (is_held m held ≡ true) ⊎ IsFree m n ts
held_after-cases n ts (mutex_lock x) r held m possible h = elim (Bool-cases (not_zero r)) [
  | inl e ↦ inl (ground arith)
  | inr e ↦ elim (Bool-cases (mutex_eq m x)) [
    | inl f ↦ let same = mutex_eq_sound m x f in inr (rw same (possible e))
    | inr f ↦ inl (ground arith)
  ]
]
held_after-cases n ts (mutex_unlock x) r held m possible h = elim (Bool-cases (not_zero r)) [
  | inl e ↦ inl (ground arith)
  | inr e ↦ inl (is_held-release m x held (ground arith))
]
held_after-cases n ts _ r held m possible h = inl h
