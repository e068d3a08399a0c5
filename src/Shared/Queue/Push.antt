-- ===== src/Shared/Queue/Push.antt =====
-- `queue_push` of shared/queue.c on a chain of nodes.
use home_banking_system.Base.{
  ℕ, zero, suc, ◌≤◌, ◌<◌, ◌≡◌, ◌≢◌, refl, ap, ◌∙◌, ne→==, true, false, none, some, [], ◌∷◌, ◌++◌,
  arith, length,
}
use home_banking_system.Base.Int.{pos}
use home_banking_system.Os.Run.{update}
use home_banking_system.Shared.Queue.{
  Ptr, null, Node, Heap, Queue, new_queue_node, last_node, queue_push,
}
use home_banking_system.Shared.Queue.Chain.{Cells, is_in, Chain, Chain-frame, Chain-fresh}

is_in-append :
    (a : Ptr) (cs : Cells) (new val : Ptr)
    → is_in a cs ≡ false
    → a ≢ new
    → is_in a (cs ++ (new, val) ∷ []) ≡ false
is_in-append a [] new val out ne = ground arith
is_in-append a (c ∷ cs) new val out ne = ground (arith, is_in-append a cs new val)

-- The last node, found and linked to the new one.
abbrev Linked : ℕ → Heap → Ptr → Cells → Ptr → Ptr → Type 0
Linked k h p cs new val =
    (last : Ptr) × (n : Node) × (last_node k h p ≡ some last)
    × (h last ≡ some n)
    × (is_in last cs ≡ true)
    × Chain (update h last (some (record { next = new; val = n.val }))) p (cs ++ (new, val) ∷ [])

last_node_step :
    (k : ℕ) (h : Heap) (p n v : Ptr)
    → h p ≡ some (record { next = n; val = v })
    → n ≢ null
    → last_node (suc k) h p ≡ last_node k h n
unfolding last_node
last_node_step k h p n v at live = rw (at, last_node) (rw (ne→== n null live) refl)

link_step :
    (k : ℕ) (h : Heap) (p a v b w : Ptr) (cs : Cells) (new val : Ptr)
    → p ≡ a
    → a ≢ null
    → is_in a ((b, w) ∷ cs) ≡ false
    → (n : Ptr) → h a ≡ some (record { next = n; val = v })
    → n ≡ b
    → b ≢ null
    → is_in new ((a, v) ∷ (b, w) ∷ cs) ≡ false
    → Linked k h n ((b, w) ∷ cs) new val
    → Linked (suc k) h p ((a, v) ∷ (b, w) ∷ cs) new val
link_step k h p a v b w cs new val e alive apart n at e' alive' out
      (last, m, found, there, inside, chain) =
    (
      last,
      m,
      last_node_step k h p n v (ap h e ∙ at) (ground arith) ∙ found,
      there,
      ground arith,
      (
        e,
        alive,
        is_in-append a ((b, w) ∷ cs) new val apart (ground arith),
        (n, ground arith, chain),
      ),
    )

link_lem :
    (k : ℕ) (h : Heap) (p a v : Ptr) (cs : Cells) (new val : Ptr)
    → Chain h p ((a, v) ∷ cs)
    → h new ≡ some (record { next = null; val = val })
    → is_in new ((a, v) ∷ cs) ≡ false
    → new ≢ null
    → length cs < k
    → Linked k h p ((a, v) ∷ cs) new val
unfolding last_node
link_lem zero h p a v cs new val c made out live lt = absurd (omega arith)
link_lem (suc k) h p a v [] new val (e, alive, apart, (n, at, ends)) made out live lt = (
  a,
  record { next = n; val = v },
  ground arith,
  at,
  ground arith,
  (e, alive, ground arith, (new, ground arith, (refl, live, refl, (null, ground arith, refl)))),
)
link_lem (suc k) h p a v ((b, w) ∷ cs) new val (e, alive, apart, (n, at, rest)) made out live lt =
    link_step k h p a v b w cs new val e alive apart n at (rest.0) (rest.1) out
      (link_lem k h n b w cs new val rest made (ground arith) live (omega arith))

-- The heap with the new node.
abbrev grown : Ptr → Ptr → Heap → Heap
grown new val h = update h new (some (record { next = null; val = val }))

grown-new :
    (new val : Ptr) (h : Heap) → grown new val h new ≡ some (record { next = null; val = val })
grown-new new val h = ground arith

push_empty :
    (fuel : ℕ) (new val : Ptr) (h : Heap) (q : Queue)
    → q.front ≡ null
    → new ≢ null
    → queue_push fuel new val h (some q)
      ≡ some (pos 0, grown new val h, some (record { front = new }))
unfolding queue_push new_queue_node
push_empty fuel new val h q e live = rw (ne→== new null live, ne→== new null live, e) refl

push_link :
    (fuel : ℕ) (new val : Ptr) (h : Heap) (q : Queue) (last : Ptr) (m : Node)
    → q.front ≢ null
    → new ≢ null
    → last_node fuel (grown new val h) q.front ≡ some last
    → grown new val h last ≡ some m
    → queue_push fuel new val h (some q)
      ≡ some
          (pos 0, update (grown new val h) last (some (record { next = new; val = m.val })), some q)
unfolding queue_push new_queue_node
push_link fuel new val h q last m full live found there =
    rw (ne→== new null live, ne→== q.front null full) (rw (ne→== new null live, found, there) refl)

-- `queue_push` on a queue that stands for `cs`, with a node that `malloc` has found: the new node
-- stands behind the others, and no other part of the heap changes.
pub queue_push_lem :
    (fuel : ℕ) (new val : Ptr) (h : Heap) (q : Queue) (cs : Cells)
    → Chain h q.front cs
    → h new ≡ none
    → new ≢ null
    → length cs ≤ fuel
    → (g : Heap) × (q' : Queue) × (queue_push fuel new val h (some q) ≡ some (pos 0, g, some q'))
      × Chain g q'.front (cs ++ (new, val) ∷ [])
queue_push_lem fuel new val h q [] c unused live enough = (
  grown new val h,
  record { front = new },
  push_empty fuel new val h q c live,
  (refl, live, refl, (null, grown-new new val h, refl)),
)
queue_push_lem fuel new val h q ((a, v) ∷ cs) c unused live enough =
    let out = Chain-fresh h q.front ((a, v) ∷ cs) new c unused in
    let c' : Chain (grown new val h) q.front ((a, v) ∷ cs) =
      Chain-frame h (grown new val h) q.front ((a, v) ∷ cs) (λ b i. ground arith) c in
    let (last, m, found, there, inside, chain) =
      link_lem fuel (grown new val h) q.front a v cs new val c' (grown-new new val h) out live
        (omega arith) in
    (
      update (grown new val h) last (some (record { next = new; val = m.val })),
      q,
      push_link fuel new val h q last m (ground arith) live found there,
      chain,
    )
