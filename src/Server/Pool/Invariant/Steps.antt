-- ===== src/Server/Pool/Invariant/Steps.antt =====
-- One lemma for each step of the main thread, and the invariant after every run.
use home_banking_system.Base.{
  ℕ, ◌+◌, ◌≡◌, refl, sym, subst, ap, ◌∙◌, List, [], ◌∷◌, ◌++◌, length-append, append_assoc, arith,
}
use home_banking_system.Server.Pool.{
  Shared, Office, Producer, reading, ending, Produce, reads, stops, fails, waits, pushes,
  posts_full, posts_end, State, Step, office, main, joins, initial, Trace, none, more,
}
use home_banking_system.Server.Pool.Counts.{
  count, count-split, holds_token, owes_place, has_left, saw_empty, one, count-all_waiting,
  count-one,
}
use home_banking_system.Server.Pool.Invariant.{IsSound, Sound, With, move-With, true≢false}

-- The end of the loop.
stopped :
    (n a b c d e : ℕ) (s : Shared)
    → IsSound n s reading a b c d e
    → IsSound n s (ending n) a b c d e
stopped n a b c d e s h = record {
  size = h.size;
  fifo = h.fifo;
  places = h.places;
  posts = omega (arith, h.posts);
  early = λ l. true≢false l;
  drained = h.drained;
  ends = λ _. refl;
}

-- A step of the main thread.
main_step-IsSound :
    (n a b c d e : ℕ) (s t : Shared) (p q : Producer)
    → Produce n s p t q
    → IsSound n s p a b c d e
    → IsSound n t q a b c d e
main_step-IsSound n a b c d e s _ _ _ (reads _ r is) h = record {
  size = h.size;
  fifo = h.fifo;
  places = h.places;
  posts = h.posts;
  early = h.early;
  drained = h.drained;
  ends = h.ends;
}
main_step-IsSound n a b c d e s _ _ _ (stops _ is) h = stopped n a b c d e s h
main_step-IsSound n a b c d e s _ _ _ (fails _) h = stopped n a b c d e s h
main_step-IsSound n a b c d e s _ _ _ (waits _ r k is) h = record {
  size = h.size;
  fifo = h.fifo;
  places = omega (arith, h.places, is);
  posts = h.posts;
  early = h.early;
  drained = h.drained;
  ends = h.ends;
}
main_step-IsSound n a b c d e s _ _ _ (pushes _ r) h = record {
  size = h.size;
  fifo = ap (λ q. q ++ r ∷ []) h.fifo ∙ append_assoc s.taken s.queue (r ∷ []);
  places = omega (arith, h.places, length-append s.queue (r ∷ []));
  posts = omega (arith, h.posts, length-append s.queue (r ∷ []));
  early = h.early;
  drained = λ l. absurd (omega (arith, h.early refl));
  ends = h.ends;
}
main_step-IsSound n a b c d e s _ _ _ (posts_full _) h = record {
  size = h.size;
  fifo = h.fifo;
  places = h.places;
  posts = omega (arith, h.posts);
  early = h.early;
  drained = h.drained;
  ends = h.ends;
}
main_step-IsSound n a b c d e s _ _ _ (posts_end _ k) h = record {
  size = h.size;
  fifo = h.fifo;
  places = h.places;
  posts = omega (arith, h.posts);
  early = h.early;
  drained = h.drained;
  ends = h.ends;
}

-- The five counts of offices with one of them apart.
count-With :
    (n : ℕ) (s : Shared) (p : Producer) (os os' : List Office) (o : Office)
    → With n p
        (count one os + count one os')
        (count holds_token os + count holds_token os')
        (count owes_place os + count owes_place os')
        (count has_left os + count has_left os')
        (count saw_empty os + count saw_empty os')
        s
        o
      ≡ Sound n (record { shared = s; producer = p; offices = os ++ o ∷ os' })
count-With n s p os os' o =
    rw
      (
        count-split one os o os',
        count-split holds_token os o os',
        count-split owes_place os o os',
        count-split has_left os o os',
        count-split saw_empty os o os',
      )
      refl

pub step-Sound : (n : ℕ) (x y : State) → Step n x y → Sound n x → Sound n y
step-Sound n _ _ (office s t p os os' o o' alive move) h =
    subst (λ T. T) (count-With n t p os os' o')
      (move-With n p _ _ _ _ _ s t o o' move (subst (λ T. T) (sym (count-With n s p os os' o)) h))
step-Sound n _ _ (main s t p q os alive produce) h = main_step-IsSound n _ _ _ _ _ s t p q produce h
step-Sound n _ _ (joins s os alive all_left) h = record {
  size = h.size;
  fifo = h.fifo;
  places = h.places;
  posts = h.posts;
  early = λ l. true≢false l;
  drained = h.drained;
  ends = h.ends;
}

pub initial-Sound : (n : ℕ) → Sound n (initial n)
initial-Sound n = record {
  size = count-one n;
  fifo = refl;
  places = omega (arith, count-all_waiting owes_place n refl);
  posts = omega (arith, count-all_waiting holds_token n refl, count-all_waiting has_left n refl);
  early = λ l. count-all_waiting saw_empty n refl;
  drained = λ l. refl;
  ends = λ e. true≢false (sym e);
}

pub run-Sound : (n k : ℕ) (x y : State) → Trace n k x y → Sound n x → Sound n y
run-Sound n _ x _ (none _) h = h
run-Sound n _ x _ (more k _ t u runs step) h = step-Sound n t u step (run-Sound n k x t runs h)
