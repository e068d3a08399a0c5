-- ===== src/Server/Pool/Walk.antt =====
-- Runs of the pool written one step after the other.
use home_banking_system.Base.{ℕ, suc, ◌≡◌, false, List, [], ◌∷◌}
use home_banking_system.Server.Pool.{
  Shared, Office, Move, Producer, Produce, State, Step, office, main, Trace, more,
}

abbrev pub state : Shared → Producer → List Office → State
state s p os = record { shared = s; producer = p; offices = os }

-- Steps of the main thread, of the first office and of the second.
pub by_main :
    {n : ℕ} {s t : Shared} {p q : Producer} {os : List Office}
    → s.ended ≡ false
    → Produce n s p t q
    → Step n (state s p os) (state t q os)
by_main {n} {s} {t} {p} {q} {os} alive m = main s t p q os alive m

pub by_first :
    {n : ℕ} {s t : Shared} {p : Producer} {o o' : Office} {os : List Office}
    → s.ended ≡ false
    → Move s o t o'
    → Step n (state s p (o ∷ os)) (state t p (o' ∷ os))
by_first {n} {s} {t} {p} {o} {o'} {os} alive m = office s t p [] os o o' alive m

pub by_second :
    {n : ℕ} {s t : Shared} {p : Producer} {x o o' : Office} {os : List Office}
    → s.ended ≡ false
    → Move s o t o'
    → Step n (state s p (x ∷ o ∷ os)) (state t p (x ∷ o' ∷ os))
by_second {n} {s} {t} {p} {x} {o} {o'} {os} alive m = office s t p (x ∷ []) os o o' alive m

infixl 5 ◌then◌
pub ◌then◌ : {n k : ℕ} {x y z : State} → Trace n k x y → Step n y z → Trace n (suc k) x z
◌then◌ {n} {k} {x} {y} {z} r s = more k x y z r s
