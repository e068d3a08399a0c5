-- ===== src/Shared/Queue/Refine.antt =====
-- shared/queue.c as a client sees it: a list of values, whatever nodes stand for it.
use home_banking_system.Base.{
  ℕ, suc, ◌≤◌, ◌<◌, ◌≡◌, ◌≢◌, refl, ap, ◌∙◌, Option, none, some, List, [], ◌∷◌, ◌++◌, arith, length,
  ◌⊎◌, inl, inr,
}
use home_banking_system.Base.Int.{ℤ, pos, negsuc}
use home_banking_system.Base.Options.{◌>>=◌}
use home_banking_system.Os.Run.{update}
use home_banking_system.Shared.Queue.{
  Ptr, null, Heap, Queue, is_queue_empty, queue_push, queue_pop, queue_front, empty_queue,
  new_queue_node,
}
use home_banking_system.Shared.Queue.Chain.{Cells, Chain}
use home_banking_system.Shared.Queue.Push.{queue_push_lem}
use home_banking_system.Shared.Queue.Pop.{
  is_queue_empty_lem, queue_front_lem, queue_pop_empty, queue_pop_lem, empty_queue_lem, without,
}

pub data Op : Type 0 where
  push : Ptr → Op
  pop front is_empty empty_all : Op

pub data Reply : Type 0 where
  code : ℤ → Reply
  value : Ptr → Reply

-- The operation on the heap, with the answers of `malloc`.
abbrev pub do_op : (Heap → Ptr) → ℕ → Op → Heap → Queue → Option (Reply × Heap × Option Queue)
do_op malloc fuel (push v) h q = do
  r ← queue_push fuel (malloc h) v h (some q)
  some (code r.0, r.1, r.2)
do_op malloc fuel pop h q = do r ← queue_pop h (some q); some (code r.0, r.1, r.2)
do_op malloc fuel front h q = do v ← queue_front h (some q); some (value v, h, some q)
do_op malloc fuel is_empty h q = some (code (is_queue_empty (some q)), h, some q)
do_op malloc fuel empty_all h q = do r ← empty_queue fuel h (some q); some (code r.0, r.1, r.2)

-- What a first-in-first-out list of values allows: a push may fail, and then changes nothing.
abbrev pub Spec : Op → List Ptr → Reply → List Ptr → Type 0
Spec (push v) xs r ys =
    ((r ≡ code (negsuc 0)) × (ys ≡ xs)) ⊎ ((r ≡ code (pos 0)) × (ys ≡ xs ++ v ∷ []))
Spec pop [] r ys = (r ≡ code (negsuc 0)) × (ys ≡ [])
Spec pop (x ∷ xs) r ys = (r ≡ code (pos 0)) × (ys ≡ xs)
Spec front [] r ys = (r ≡ value null) × (ys ≡ [])
Spec front (x ∷ xs) r ys = (r ≡ value x) × (ys ≡ x ∷ xs)
Spec is_empty [] r ys = (r ≡ code (pos 1)) × (ys ≡ [])
Spec is_empty (x ∷ xs) r ys = (r ≡ code (pos 0)) × (ys ≡ x ∷ xs)
Spec empty_all xs r ys = (r ≡ code (pos 0)) × (ys ≡ [])

abbrev pub values : Cells → List Ptr
values [] = []
values ((a, v) ∷ cs) = v ∷ values cs

-- The queue stands for the values.
abbrev pub Repr : Heap → Queue → List Ptr → Type 0
Repr h q xs = (cs : Cells) × Chain h q.front cs × (values cs ≡ xs)

-- `malloc` answers null, or an address that is not in use.
abbrev pub IsMalloc : (Heap → Ptr) → Type 0
IsMalloc malloc = (h : Heap) → (malloc h ≡ null) ⊎ ((malloc h ≢ null) × (h (malloc h) ≡ none))

-- One operation, done on a queue that stands for `xs`.
abbrev pub Refines : (Heap → Ptr) → ℕ → Op → Heap → Queue → List Ptr → Type 0
Refines malloc fuel op h q xs =
    (r : Reply) × (g : Heap) × (q' : Queue) × (ys : List Ptr) × (do_op malloc fuel op h q
      ≡ some (r, g, some q'))
    × Spec op xs r ys
    × Repr g q' ys

values-append : (cs : Cells) (a v : Ptr) → values (cs ++ (a, v) ∷ []) ≡ values cs ++ v ∷ []
values-append [] a v = refl
values-append (c ∷ cs) a v = ap (λ vs. c.1 ∷ vs) (values-append cs a v)

length-values : (cs : Cells) → length (values cs) ≡ length cs
length-values [] = refl
length-values (c ∷ cs) = ap suc (length-values cs)

push_fails :
    (fuel : ℕ) (new val : Ptr) (h : Heap) (q : Queue)
    → new ≡ null
    → queue_push fuel new val h (some q) ≡ some (negsuc 0, h, some q)
unfolding queue_push new_queue_node
push_fails fuel new val h q e = rw e refl

module _ (malloc : Heap → Ptr) (fuel : ℕ) (h : Heap) (q : Queue) where
  push-Refines :
      (v : Ptr) (xs : List Ptr)
      → IsMalloc malloc
      → Repr h q xs
      → length xs ≤ fuel
      → Refines malloc fuel (push v) h q xs
  push-Refines v xs fresh (cs, c, is) enough = elim (fresh h) [
    | inl e ↦ (
      code (negsuc 0),
      h,
      q,
      xs,
      rw (push_fails fuel (malloc h) v h q e) refl,
      inl (refl, refl),
      (cs, c, is),
    )
    | inr (live, unused) ↦
        let (g, q', pushes, c') =
          queue_push_lem fuel (malloc h) v h q cs c unused live
            (omega (arith, length-values cs, ap length is)) in
        (
          code (pos 0),
          g,
          q',
          xs ++ v ∷ [],
          rw pushes refl,
          inr (refl, refl),
          (
            cs ++ (malloc h, v) ∷ [],
            c',
            values-append cs (malloc h) v ∙ ap (λ vs. vs ++ v ∷ []) is,
          ),
        )
  ]

  pop-Refines : (xs : List Ptr) → Repr h q xs → Refines malloc fuel pop h q xs
  pop-Refines [] ([], c, is) =
      (code (negsuc 0), h, q, [], rw (queue_pop_empty h q c) refl, (refl, refl), ([], c, refl))
  pop-Refines [] ((a, v) ∷ cs, c, is) = absurd (ground arith)
  pop-Refines (x ∷ xs) ([], c, is) = absurd (ground arith)
  pop-Refines (x ∷ xs) ((a, v) ∷ cs, c, is) =
      let (q', pops, c') = queue_pop_lem h q a v cs c in
      (code (pos 0), update h a none, q', xs, rw pops refl, (refl, refl), (cs, c', ground arith))

  front-Refines : (xs : List Ptr) → Repr h q xs → Refines malloc fuel front h q xs
  front-Refines [] ([], c, is) =
      (value null, h, q, [], rw (queue_front_lem h q [] c) refl, (refl, refl), ([], c, refl))
  front-Refines [] ((a, v) ∷ cs, c, is) = absurd (ground arith)
  front-Refines (x ∷ xs) ([], c, is) = absurd (ground arith)
  front-Refines (x ∷ xs) ((a, v) ∷ cs, c, is) = (
    value v,
    h,
    q,
    x ∷ xs,
    rw (queue_front_lem h q ((a, v) ∷ cs) c) refl,
    (ground arith, refl),
    ((a, v) ∷ cs, c, is),
  )

  is_empty-Refines : (xs : List Ptr) → Repr h q xs → Refines malloc fuel is_empty h q xs
  is_empty-Refines [] ([], c, is) =
      (code (pos 1), h, q, [], rw (is_queue_empty_lem h q [] c) refl, (refl, refl), ([], c, refl))
  is_empty-Refines [] ((a, v) ∷ cs, c, is) = absurd (ground arith)
  is_empty-Refines (x ∷ xs) ([], c, is) = absurd (ground arith)
  is_empty-Refines (x ∷ xs) ((a, v) ∷ cs, c, is) = (
    code (pos 0),
    h,
    q,
    x ∷ xs,
    rw (is_queue_empty_lem h q ((a, v) ∷ cs) c) refl,
    (refl, refl),
    ((a, v) ∷ cs, c, is),
  )

  empty-Refines :
      (xs : List Ptr) → Repr h q xs → length xs < fuel → Refines malloc fuel empty_all h q xs
  empty-Refines xs (cs, c, is) enough = (
    code (pos 0),
    without cs h,
    record { front = null },
    [],
    rw (empty_queue_lem fuel h q cs c (omega (arith, length-values cs, ap length is))) refl,
    (refl, refl),
    ([], refl, refl),
  )

-- Every operation on a queue that stands for the values `xs`, with fuel for more rounds than there
-- are values and a `malloc` that answers null or an address not in use, is defined, does what a
-- first-in-first-out list of values allows, and leaves a queue that stands for the new values: push
-- adds at the end, or fails and changes nothing; pop and front take and read the first, or say that
-- there is none.
pub do_op-Refines :
    (malloc : Heap → Ptr) (fuel : ℕ) (op : Op) (h : Heap) (q : Queue) (xs : List Ptr)
    → IsMalloc malloc
    → Repr h q xs
    → length xs < fuel
    → Refines malloc fuel op h q xs
do_op-Refines malloc fuel (push v) h q xs fresh is enough =
    push-Refines malloc fuel h q v xs fresh is (omega arith)
do_op-Refines malloc fuel pop h q xs fresh is enough = pop-Refines malloc fuel h q xs is
do_op-Refines malloc fuel front h q xs fresh is enough = front-Refines malloc fuel h q xs is
do_op-Refines malloc fuel is_empty h q xs fresh is enough = is_empty-Refines malloc fuel h q xs is
do_op-Refines malloc fuel empty_all h q xs fresh is enough =
    empty-Refines malloc fuel h q xs is enough
