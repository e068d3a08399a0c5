-- ===== src/Server/Pool/Invariant.antt =====
-- What holds after every step of the pool.
pub mod Steps
use home_banking_system.Base.{
  ℕ, zero, suc, ◌+◌, ◌-◌, ◌≤◌, ◌<◌, ◌≡◌, refl, sym, subst, ap, ◌∙◌, Bool, true, false, ◌&&◌, not,
  List, [], ◌∷◌, ◌++◌, Bool-cases, ◌⊎◌, inl, inr, length, length-append, append_assoc, append-nil,
  arith,
}
use home_banking_system.Types.{TlvRequest}
use home_banking_system.Server.Pool.{
  Shared, Office, waiting, checking, seen, taking, took, serving, replying, left, is_empty, Move,
  wakes, checks, leaves, stays, takes, finds_none, posts_empty, handles, closes, replies, Producer,
  reading, pending, placing, posting, ending, over, Produce, reads, stops, fails, waits, pushes,
  posts_full, posts_end, State, Step, office, main, joins, initial, Trace, none, more, all_waiting,
}
use home_banking_system.Server.Pool.Counts.{
  count, count-split, holds_token, owes_place, has_left, saw_empty, one, count-all_waiting,
  count-one,
}

-- Behind the loop.
abbrev pub is_late : Producer → Bool
is_late (ending k) = true
is_late over = true
is_late _ = false

-- A place that the main thread has been given and not yet used.
abbrev pub holds_place : Producer → ℕ
holds_place (placing r) = 1
holds_place _ = 0

-- Posts to the count of requests that are still owed, for one on the queue or for the offices to leave.
abbrev pub owed : Producer → ℕ
owed posting = 1
owed (ending k) = k
owed _ = 0

-- The posts for the offices to leave, of `n` offices.
abbrev pub extra : ℕ → Producer → ℕ
extra n (ending k) = n
extra n over = n
extra n _ = 0

-- With the counts of offices: all, with a token, owing a place, gone, and gone or about to go.
pub record IsSound (n : ℕ) (s : Shared) (p : Producer) (all tokens owing gone going : ℕ)
    : Type 0 where
  pub size : all ≡ n
  pub fifo : s.accepted ≡ s.taken ++ s.queue
  pub places : s.empty_value + length s.queue + owing + holds_place p ≡ n
  pub posts : s.full_value + tokens + gone + owed p ≡ length s.queue + extra n p
  pub early : is_late p ≡ false → going ≡ 0
  pub drained : 0 < going → s.queue ≡ []
  pub ends : s.ended ≡ true → is_late p ≡ true

abbrev pub Sound : ℕ → State → Type 0
Sound n x =
    IsSound n x.shared x.producer (count one x.offices) (count holds_token x.offices)
      (count owes_place x.offices) (count has_left x.offices) (count saw_empty x.offices)

extra-early : (n : ℕ) (p : Producer) → is_late p ≡ false → extra n p ≡ 0
extra-early n p h = ground arith

pub true≢false : {A : Type 0} → true ≡ false → A
true≢false e = absurd (ground arith)

-- Someone who holds a token and finds the queue empty is behind the loop.
late_lem :
    (n : ℕ) (s : Shared) (p : Producer) (tokens gone : ℕ)
    → s.full_value + suc tokens + gone + owed p ≡ length s.queue + extra n p
    → s.queue ≡ []
    → is_late p ≡ true
late_lem n s p tokens gone posts none_left = elim (Bool-cases (is_late p)) [
  | inl e ↦ e
  | inr e ↦ absurd (omega (arith, extra-early n p e, posts, ap length none_left))
]

-- An office's step, with the counts of the others.
module _ (n : ℕ) (p : Producer) (a b c d e : ℕ) where
  abbrev pub With : Shared → Office → Type 0
  With s o =
      IsSound n s p (a + one o) (b + holds_token o) (c + owes_place o) (d + has_left o)
        (e + saw_empty o)

  checks-With :
      (s : Shared) (q : List TlvRequest)
      → s.queue ≡ q
      → With s checking
      → With s (seen (is_empty q))
  checks-With s (r ∷ rs) is h = record {
    size = h.size;
    fifo = h.fifo;
    places = h.places;
    posts = h.posts;
    early = h.early;
    drained = h.drained;
    ends = h.ends;
  }
  checks-With s [] is h =
      let late = late_lem n s p b d (omega (arith, h.posts)) is in
      record {
        size = h.size;
        fifo = h.fifo;
        places = h.places;
        posts = h.posts;
        early = λ l. true≢false (sym late ∙ l);
        drained = λ some_left. is;
        ends = h.ends;
      }

  pub move-With : (s t : Shared) (o o' : Office) → Move s o t o' → With s o → With t o'
  move-With s _ _ _ (wakes _ k is) h = record {
    size = h.size;
    fifo = h.fifo;
    places = h.places;
    posts = omega (arith, h.posts, is);
    early = h.early;
    drained = h.drained;
    ends = h.ends;
  }
  move-With s _ _ _ (checks _) h = checks-With s s.queue refl h
  move-With s _ _ _ (leaves _ false is) h = absurd (ground (arith, is))
  move-With s _ _ _ (leaves _ true is) h = record {
    size = h.size;
    fifo = h.fifo;
    places = h.places;
    posts = omega (arith, h.posts);
    early = h.early;
    drained = h.drained;
    ends = h.ends;
  }
  move-With s _ _ _ (stays _ saw is) h = record {
    size = h.size;
    fifo = h.fifo;
    places = h.places;
    posts = h.posts;
    early = λ l. omega (arith, h.early l);
    drained = λ l. h.drained (omega arith);
    ends = h.ends;
  }
  move-With s _ _ _ (takes _ r rs is) h = record {
    size = h.size;
    fifo = h.fifo ∙ ap (λ q. s.taken ++ q) is ∙ sym (append_assoc s.taken (r ∷ []) rs);
    places = omega (arith, h.places, ap length is);
    posts = omega (arith, h.posts, ap length is);
    early = h.early;
    drained = λ l. absurd (ground (arith, h.drained l, is));
    ends = h.ends;
  }
  move-With s _ _ _ (finds_none _ is) h = record {
    size = h.size;
    fifo = h.fifo;
    places = h.places;
    posts = h.posts;
    early = h.early;
    drained = h.drained;
    ends = λ _. late_lem n s p b d (omega (arith, h.posts)) is;
  }
  move-With s _ _ _ (posts_empty _ r) h = record {
    size = h.size;
    fifo = h.fifo;
    places = omega (arith, h.places);
    posts = h.posts;
    early = h.early;
    drained = h.drained;
    ends = h.ends;
  }
  move-With s _ _ _ (handles _ r) h = h
  move-With s _ _ _ (closes _ r is) h = record {
    size = h.size;
    fifo = h.fifo;
    places = h.places;
    posts = h.posts;
    early = h.early;
    drained = h.drained;
    ends = h.ends;
  }
  move-With s _ _ _ (replies _) h = h
