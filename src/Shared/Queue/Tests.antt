-- ===== src/Shared/Queue/Tests.antt =====
-- The queue on a heap with two nodes: runs, and the theorems there.
use home_banking_system.Base.{
  ◌≡◌, refl, none, some, [], ◌∷◌, ◌==◌, if◌then◌else◌, arith, inl, inr, Option-cases,
}
use home_banking_system.Base.Int.{pos}
use home_banking_system.Shared.Queue.{
  Ptr, null, Heap, Queue, new_queue_node, last_node, queue_push, del_queue,
}
use home_banking_system.Shared.Queue.Chain.{Cells, is_in, Chain}
use home_banking_system.Shared.Queue.Pop.{del_queue_frees}
use home_banking_system.Shared.Queue.Refine.{push, code, IsMalloc, Refines, do_op, do_op-Refines}

-- Node 7 before node 3, and something else at 9.
abbrev heap : Heap
heap a =
    if a == 7
    then some (record { next = 3; val = 10 })
    else if a == 3
    then some (record { next = null; val = 20 })
    else if a == 9
    then some (record { next = 9; val = 9 })
    else none

abbrev two : Queue
two = record { front = 7 }

abbrev cells : Cells
cells = (7, 10) ∷ (3, 20) ∷ []

heap-Chain : Chain heap 7 cells
heap-Chain = (refl, ground arith, refl, (3, refl, (refl, ground arith, refl, (null, refl, refl))))

-- The address 5 if it is free.
abbrev malloc : Heap → Ptr
malloc h = elim (h 5) [ none ↦ 5 | some n ↦ null ]

malloc-IsMalloc : IsMalloc malloc
malloc-IsMalloc h = elim (Option-cases (h 5)) [
  | inl e ↦ inr (ground arith, ground arith)
  | inr (n, e) ↦ inl (ground arith)
]

do_op-Refines_example : Refines malloc 3 (push 30) heap two (10 ∷ 20 ∷ [])
do_op-Refines_example =
    do_op-Refines malloc 3 (push 30) heap two (10 ∷ 20 ∷ []) malloc-IsMalloc
      (cells, heap-Chain, refl) (omega arith)

del_queue_frees_example :
    (g : Heap) × (del_queue 3 heap (some two) ≡ some (pos 0, g, none))
    × ((a : Ptr) → g a ≡ (if is_in a cells then none else heap a))
del_queue_frees_example = del_queue_frees 3 heap two cells heap-Chain (omega arith)

-- The new node is behind the two others.
push_runs :
    (g : Heap) × (do_op malloc 3 (push 30) heap two ≡ some (code (pos 0), g, some two))
    × (g 3 ≡ some (record { next = 5; val = 20 }))
    × (g 5 ≡ some (record { next = null; val = 30 }))
unfolding queue_push new_queue_node last_node
push_runs = (_, refl, refl, refl)
