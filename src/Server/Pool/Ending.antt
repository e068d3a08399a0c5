-- ===== src/Server/Pool/Ending.antt =====
-- The end of the server's work: behind the loop of the main thread the steps run out, and they do not
-- before the offices have left or the process has ended.
use home_banking_system.Base.{
  ℕ, zero, suc, ◌+◌, ◌*◌, ◌≤◌, ◌<◌, ◌≡◌, refl, sym, subst, ap, Bool, true, false, ◌&&◌, not, List,
  [], ◌∷◌, ◌++◌, arith, Bool-cases, ◌⊎◌, inl, inr,
}
use home_banking_system.Types.{TlvRequest}
use home_banking_system.Server.Pool.{
  Shared, Office, waiting, checking, seen, taking, took, serving, replying, left, is_empty, Move,
  wakes, checks, leaves, stays, takes, finds_none, posts_empty, handles, closes, replies, Producer,
  ending, over, Produce, posts_end, State, Step, office, main, joins, initial, Trace, none, more,
}
use home_banking_system.Server.Pool.Counts.{
  count, count-split, holds_token, has_left, one, steps_left, AllLeft-count, left-le,
}
use home_banking_system.Server.Pool.Invariant.{Sound, is_late}
use home_banking_system.Server.Pool.Invariant.Steps.{run-Sound, initial-Sound}

-- What is left to do of the main thread, behind its loop.
abbrev pub posts_left : Producer → ℕ
posts_left (ending k) = 8 * k + 1
posts_left _ = 0

abbrev pub still : Bool → ℕ
still true = 0
still false = 1

-- A bound on the steps.
abbrev pub budget : State → ℕ
budget x =
    posts_left x.producer
    + 7 * x.shared.full_value
    + count steps_left x.offices
    + still x.shared.ended

move-budget :
    (s t : Shared) (o o' : Office)
    → s.ended ≡ false
    → Move s o t o'
    → 7 * t.full_value + steps_left o' + still t.ended
      < 7 * s.full_value + steps_left o + still s.ended
move-budget s _ _ _ alive (wakes _ k e) = omega (arith, e)
move-budget s _ _ _ alive (checks _) = omega arith
move-budget s _ _ _ alive (leaves _ b e) = omega arith
move-budget s _ _ _ alive (stays _ b e) = omega arith
move-budget s _ _ _ alive (takes _ r rs e) = omega arith
move-budget s _ _ _ alive (finds_none _ e) = rw alive (omega arith)
move-budget s _ _ _ alive (posts_empty _ r) = omega arith
move-budget s _ _ _ alive (handles _ r) = omega arith
move-budget s _ _ _ alive (closes _ r e) = omega arith
move-budget s _ _ _ alive (replies _) = omega arith

main_step-budget :
    (n : ℕ) (s t : Shared) (p q : Producer)
    → is_late p ≡ true
    → Produce n s p t q
    → (is_late q ≡ true)
      × (t.ended ≡ s.ended)
      × (posts_left q + 7 * t.full_value < posts_left p + 7 * s.full_value)
main_step-budget n s _ _ _ late (posts_end _ k) = (refl, refl, omega arith)
main_step-budget n s _ _ _ late _ = absurd (ground arith)

step-budget :
    (n : ℕ) (x y : State)
    → Step n x y
    → is_late x.producer ≡ true
    → (is_late y.producer ≡ true) × (budget y < budget x)
step-budget n _ _ (office s t p os os' o o' alive move) late = (
  late,
  omega (
    arith,
    move-budget s t o o' alive move,
    count-split steps_left os o os',
    count-split steps_left os o' os',
  ),
)
step-budget n _ _ (main s t p q os alive produce) late =
    let (late', same, less) = main_step-budget n s t p q late produce in
    (late', omega (arith, less, ap still same))
step-budget n _ _ (joins s os alive all_left) late = (refl, omega arith)

run-budget :
    (n k : ℕ) (x y : State)
    → Trace n k x y
    → is_late x.producer ≡ true
    → (is_late y.producer ≡ true) × (k + budget y ≤ budget x)
run-budget n _ x _ (none _) late = (late, omega arith)
run-budget n _ x _ (more k _ t u runs step) late =
    let (late', le) = run-budget n k x t runs late in
    let (late'', less) = step-budget n t u step late' in (late'', omega arith)

-- An office that can move, among those from some place on.
abbrev SomeMoves : Shared → List Office → Type 0
SomeMoves s os =
    (xs : List Office) × (o : Office) × (ys : List Office) × (t : Shared) × (o' : Office) × (os
      ≡ xs ++ o ∷ ys)
    × Move s o t o'

-- No office can move: none is on its way, and each has left or waits for a count that is zero.
abbrev IsStill : Shared → List Office → Type 0
IsStill s os =
    (count holds_token os ≡ 0) × ((s.full_value ≡ 0) ⊎ (count has_left os ≡ count one os))

abbrev CanMove : Shared → Office → Type 0
CanMove s o = (t : Shared) × (o' : Office) × Move s o t o'

takes_or_not : (s : Shared) (q : List TlvRequest) → s.queue ≡ q → CanMove s taking
takes_or_not s [] e = (record s { ended = true }, taking, finds_none s e)
takes_or_not s (r ∷ rs) e =
    (record s { queue = rs; taken = s.taken ++ r ∷ [] }, took r, takes s r rs e)

wakes_or_not : (s : Shared) (k : ℕ) → s.full_value ≡ k → CanMove s waiting ⊎ (s.full_value ≡ 0)
wakes_or_not s zero e = inr e
wakes_or_not s (suc k) e = inl (record s { full_value = k }, checking, wakes s k e)

office-cases :
    (s : Shared) (o : Office) → CanMove s o ⊎ ((o ≡ left) ⊎ ((o ≡ waiting) × (s.full_value ≡ 0)))
office-cases s waiting = elim (wakes_or_not s s.full_value refl) [
  | inl moves ↦ inl moves
  | inr none_left ↦ inr (inr (refl, none_left))
]
office-cases s checking = inl (s, seen (is_empty s.queue), checks s)
office-cases s (seen b) = elim (Bool-cases (not s.balcony_open && b)) [
  | inl e ↦ inl (s, left, leaves s b e)
  | inr e ↦ inl (s, taking, stays s b e)
]
office-cases s taking = inl (takes_or_not s s.queue refl)
office-cases s (took r) =
    inl (record s { empty_value = s.empty_value + 1 }, serving r, posts_empty s r)
office-cases s (serving r) = inl (s, replying, handles s r)
office-cases s replying = inl (s, waiting, replies s)
office-cases s left = inr (inl refl)

look : (s : Shared) (os : List Office) → SomeMoves s os ⊎ IsStill s os
look s [] = inr (refl, inr refl)
look s (o ∷ os) = elim (office-cases s o) [
  | inl (t, o', move) ↦ inl ([], o, os, t, o', refl, move)
  | inr still ↦ elim (look s os) [
    | inl (xs, x, ys, t, x', e, move) ↦ inl (o ∷ xs, x, ys, t, x', ap (λ zs. o ∷ zs) e, move)
    | inr (tokens, counts) ↦ elim still [
      | inl e ↦ inr (
        rw e (omega (arith, tokens)),
        elim counts [
          | inl none_left ↦ inl none_left
          | inr all_left ↦ inr (rw e (omega (arith, all_left)))
        ],
      )
      | inr (e, none_left) ↦ inr (rw e (omega (arith, tokens)), inl none_left)
    ]
  ]
]

abbrev pub CanStep : ℕ → State → Type 0
CanStep n x = (y : State) × Step n x y

-- Behind the loop with no office that can move, the main thread can.
main_steps :
    (n : ℕ) (s : Shared) (p : Producer) (os : List Office)
    → s.ended ≡ false
    → is_late p ≡ true
    → Sound n (record { shared = s; producer = p; offices = os })
    → IsStill s os
    → CanStep n (record { shared = s; producer = p; offices = os }) ⊎ (p ≡ over)
main_steps n s over os alive late h still = inr refl
main_steps n s (ending (suc k)) os alive late h still = inl (
  record { shared = record s { full_value = s.full_value + 1 }; producer = ending k; offices = os },
  main s (record s { full_value = s.full_value + 1 }) (ending (suc k)) (ending k) os alive
      (posts_end s k),
)
main_steps n s (ending zero) os alive late h (tokens, counts) =
    let all_left : count has_left os ≡ count one os = elim counts [
      | inl none_left ↦ omega (arith, h.posts, h.size, left-le os)
      | inr all_left ↦ all_left
    ] in
    inl (
      record { shared = s; producer = over; offices = os },
      joins s os alive (AllLeft-count os all_left),
    )
main_steps n s _ os alive late h still = absurd (ground arith)

late_steps :
    (n : ℕ) (x : State)
    → x.shared.ended ≡ false
    → is_late x.producer ≡ true
    → Sound n x
    → CanStep n x ⊎ (x.producer ≡ over)
late_steps n x alive late h = elim (look x.shared x.offices) [
  | inr still ↦ main_steps n x.shared x.producer x.offices alive late h still
  | inl (xs, o, ys, t, o', e, move) ↦ inl (
    record { shared = t; producer = x.producer; offices = xs ++ o' ∷ ys },
    subst
        (λ os.
          Step n (record x { offices = os })
            (record { shared = t; producer = x.producer; offices = xs ++ o' ∷ ys }))
        (sym e) (office x.shared t x.producer xs ys o o' alive move),
  )
]

-- Behind the loop of the main thread, in a server with `n` offices, whatever the order of steps: every
-- run from there has at most `budget` steps; and in every state on the way another step is possible,
-- unless the main thread has joined all offices or a thread has ended the process.
pub pool_ends :
    (n k : ℕ) (x : State)
    → Trace n k (initial n) x
    → is_late x.producer ≡ true
    → (l : ℕ) (y : State) → Trace n l x y
    → (l ≤ budget x) × (CanStep n y ⊎ ((y.producer ≡ over) ⊎ (y.shared.ended ≡ true)))
pool_ends n k x runs late l y further =
    let (late', le) = run-budget n l x y further late in
    let h = run-Sound n l x y further (run-Sound n k (initial n) x runs (initial-Sound n)) in
    (
      omega arith,
      elim (Bool-cases y.shared.ended) [
        | inl e ↦ inr (inr e)
        | inr e ↦ elim (late_steps n y e late' h) [
          | inl steps ↦ inl steps
          | inr joined ↦ inr (inl joined)
        ]
      ],
    )
