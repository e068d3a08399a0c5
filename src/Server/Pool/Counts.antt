-- ===== src/Server/Pool/Counts.antt =====
-- Sums over the offices.
use home_banking_system.Base.{ℕ, zero, suc, ◌+◌, ◌≤◌, ◌≡◌, refl, true, List, [], ◌∷◌, ◌++◌, arith}
use home_banking_system.Server.Pool.{
  Office, waiting, checking, seen, taking, took, serving, replying, left, AllLeft, all_waiting,
}

abbrev pub count : (Office → ℕ) → List Office → ℕ
count f [] = 0
count f (o ∷ os) = f o + count f os

pub count-split :
    (f : Office → ℕ) (os : List Office) (o : Office) (os' : List Office)
    → count f (os ++ o ∷ os') ≡ count f os + count f os' + f o
count-split f [] o os' = omega arith
count-split f (x ∷ os) o os' = omega (arith, count-split f os o os')

-- The offices that have got through `wait_sem_full` and not yet taken a request or left.
abbrev pub holds_token : Office → ℕ
holds_token checking = 1
holds_token (seen b) = 1
holds_token taking = 1
holds_token _ = 0

-- Those that have taken a request and not yet posted that its place is free.
abbrev pub owes_place : Office → ℕ
owes_place (took r) = 1
owes_place _ = 0

abbrev pub has_left : Office → ℕ
has_left left = 1
has_left _ = 0

abbrev pub saw_empty : Office → ℕ
saw_empty (seen true) = 1
saw_empty left = 1
saw_empty _ = 0

abbrev pub one : Office → ℕ
one _ = 1

-- The steps that an office has before it until it waits again.
abbrev pub steps_left : Office → ℕ
steps_left checking = 6
steps_left (seen b) = 5
steps_left taking = 4
steps_left (took r) = 3
steps_left (serving r) = 2
steps_left replying = 1
steps_left _ = 0

pub count-all_waiting : (f : Office → ℕ) (n : ℕ) → f waiting ≡ 0 → count f (all_waiting n) ≡ 0
count-all_waiting f zero e = refl
count-all_waiting f (suc n) e = omega (arith, count-all_waiting f n e)

pub count-one : (n : ℕ) → count one (all_waiting n) ≡ n
count-one zero = refl
count-one (suc n) = omega (arith, count-one n)

has_left-le : (o : Office) → has_left o ≤ 1
has_left-le o = ground arith

pub left-le : (os : List Office) → count has_left os ≤ count one os
left-le [] = omega arith
left-le (o ∷ os) = omega (arith, left-le os, has_left-le o)

-- All have left when as many have left as there are.
pub AllLeft-count : (os : List Office) → count has_left os ≡ count one os → AllLeft os
AllLeft-count [] h = tt
AllLeft-count (left ∷ os) h = AllLeft-count os (omega arith)
AllLeft-count (waiting ∷ os) h = absurd (omega (arith, left-le os))
AllLeft-count (checking ∷ os) h = absurd (omega (arith, left-le os))
AllLeft-count (seen b ∷ os) h = absurd (omega (arith, left-le os))
AllLeft-count (taking ∷ os) h = absurd (omega (arith, left-le os))
AllLeft-count (took r ∷ os) h = absurd (omega (arith, left-le os))
AllLeft-count (serving r ∷ os) h = absurd (omega (arith, left-le os))
AllLeft-count (replying ∷ os) h = absurd (omega (arith, left-le os))

pub count-AllLeft : (os : List Office) → AllLeft os → count has_left os ≡ count one os
count-AllLeft [] h = refl
count-AllLeft (left ∷ os) h = omega (arith, count-AllLeft os h)
count-AllLeft (waiting ∷ os) h = absurd h
count-AllLeft (checking ∷ os) h = absurd h
count-AllLeft (seen b ∷ os) h = absurd h
count-AllLeft (taking ∷ os) h = absurd h
count-AllLeft (took r ∷ os) h = absurd h
count-AllLeft (serving r ∷ os) h = absurd h
count-AllLeft (replying ∷ os) h = absurd h
