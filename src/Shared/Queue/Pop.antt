-- ===== src/Shared/Queue/Pop.antt =====
-- `queue_front`, `queue_pop`, `empty_queue` and `del_queue` of shared/queue.c on a chain of nodes.
use home_banking_system.Base.{
  ℕ, zero, suc, ◌<◌, ◌≡◌, ◌≢◌, refl, ap, ◌∙◌, ne→==, none, some, [], ◌∷◌, if◌then◌else◌, arith,
  length,
}
use home_banking_system.Base.Int.{pos, negsuc}
use home_banking_system.Os.Run.{update}
use home_banking_system.Shared.Queue.{
  Ptr, null, Heap, Queue, is_queue_empty, queue_pop, queue_front, pop_all, empty_queue, del_queue,
}
use home_banking_system.Shared.Queue.Chain.{Cells, is_in, Chain, Chain-frame}

pub is_queue_empty_lem :
    (h : Heap) (q : Queue) (cs : Cells)
    → Chain h q.front cs
    → is_queue_empty (some q) ≡ elim cs [ [] ↦ pos 1 | c ∷ cs ↦ pos 0 ]
unfolding is_queue_empty
is_queue_empty_lem h q [] c = rw c refl
is_queue_empty_lem h q ((a, v) ∷ cs) (e, live, out, rest) =
    rw (ne→== q.front null (ground arith)) refl

pub queue_front_lem :
    (h : Heap) (q : Queue) (cs : Cells)
    → Chain h q.front cs
    → queue_front h (some q) ≡ some (elim cs [ [] ↦ null | c ∷ cs ↦ c.1 ])
unfolding queue_front
queue_front_lem h q [] c = rw c refl
queue_front_lem h q ((a, v) ∷ cs) (e, live, out, (n, at, rest)) =
    rw (ne→== q.front null (ground arith)) (rw (ap h e ∙ at) refl)

pub queue_pop_empty :
    (h : Heap) (q : Queue) → q.front ≡ null → queue_pop h (some q) ≡ some (negsuc 0, h, some q)
unfolding queue_pop
queue_pop_empty h q c = rw c refl

-- The front is unlinked and freed, and the rest of the heap is as it was.
pub queue_pop_lem :
    (h : Heap) (q : Queue) (a v : Ptr) (cs : Cells)
    → Chain h q.front ((a, v) ∷ cs)
    → (q' : Queue) × (queue_pop h (some q) ≡ some (pos 0, update h a none, some q'))
      × Chain (update h a none) q'.front cs
unfolding queue_pop
queue_pop_lem h q a v cs (e, live, out, (n, at, rest)) = (
  record { front = n },
  rw (ne→== q.front null (ground arith)) (rw (ap h e ∙ at, e) refl),
  Chain-frame h (update h a none) n cs (λ b i. ground arith) rest,
)

-- `h` without the nodes of a chain.
abbrev pub without : Cells → Heap → Heap
without [] h = h
without ((a, v) ∷ cs) h = without cs (update h a none)

pop_all_done : (k : ℕ) (h : Heap) (q : Queue) → q.front ≡ null → pop_all (suc k) h q ≡ some (h, q)
unfolding pop_all
pop_all_done k h q e = rw e refl

pop_all_step :
    (k : ℕ) (h : Heap) (q : Queue) (g : Heap) (q' : Queue)
    → q.front ≢ null
    → queue_pop h (some q) ≡ some (pos 0, g, some q')
    → pop_all (suc k) h q ≡ pop_all k g q'
unfolding pop_all
pop_all_step k h q g q' full pops = rw (ne→== q.front null full, pop_all, pops) refl

pop_all_lem :
    (fuel : ℕ) (h : Heap) (q : Queue) (cs : Cells)
    → Chain h q.front cs
    → length cs < fuel
    → pop_all fuel h q ≡ some (without cs h, record { front = null })
unfolding pop_all
pop_all_lem zero h q cs c lt = absurd (omega arith)
pop_all_lem (suc k) h q [] c lt = pop_all_done k h q c ∙ ap (λ f. some (h, record { front = f })) c
pop_all_lem (suc k) h q ((a, v) ∷ cs) c lt =
    let (q', pops, c') = queue_pop_lem h q a v cs c in
    pop_all_step k h q (update h a none) q' (ground arith) pops
    ∙ pop_all_lem k (update h a none) q' cs c' (omega arith)

-- `empty_queue` leaves the null pointer, and every node freed.
pub empty_queue_lem :
    (fuel : ℕ) (h : Heap) (q : Queue) (cs : Cells)
    → Chain h q.front cs
    → length cs < fuel
    → empty_queue fuel h (some q) ≡ some (pos 0, without cs h, some (record { front = null }))
unfolding empty_queue
empty_queue_lem fuel h q cs c lt = rw (pop_all_lem fuel h q cs c lt) refl

without-is_in :
    (cs : Cells) (h : Heap) (a : Ptr) → without cs h a ≡ (if is_in a cs then none else h a)
without-is_in [] h a = refl
without-is_in ((b, v) ∷ cs) h a = ground (arith, without-is_in cs (update h b none) a)

-- `del_queue` on a queue that stands for a chain of nodes, with fuel for one round more than there
-- are nodes, returns 0 and frees exactly the nodes of the chain: the rest of the heap is as it was.
pub del_queue_frees :
    (fuel : ℕ) (h : Heap) (q : Queue) (cs : Cells)
    → Chain h q.front cs
    → length cs < fuel
    → (g : Heap) × (del_queue fuel h (some q) ≡ some (pos 0, g, none))
      × ((a : Ptr) → g a ≡ (if is_in a cs then none else h a))
unfolding del_queue
del_queue_frees fuel h q cs c lt =
    (without cs h, rw (empty_queue_lem fuel h q cs c lt) refl, without-is_in cs h)
