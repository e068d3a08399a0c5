-- ===== src/Shared/Queue.antt =====
-- shared/queue.c: a queue as a chain of nodes on the heap. A value is a pointer, which the queue
-- does not follow. `none` as a result is undefined behaviour: a read of memory that is not allocated.
pub mod Chain
pub mod Pop
pub mod Push
pub mod Refine
mod Tests
use home_banking_system.Base.{
  ℕ, zero, suc, Bool, true, false, Option, none, some, ◌==◌, if◌then◌else◌,
}
use home_banking_system.Base.Int.{ℤ, pos, negsuc}
use home_banking_system.Base.Options.{◌>>=◌}
use home_banking_system.Os.Run.{update}

abbrev pub Ptr : Type 0
Ptr = ℕ

abbrev pub null : Ptr
null = 0

pub record Node : Type 0 where
  pub next : Ptr
  pub val : Ptr

-- The nodes that are allocated.
abbrev pub Heap : Type 0
Heap = Ptr → Option Node

pub record Queue : Type 0 where
  pub front : Ptr

-- `malloc` answers `new`, which may be null; the node is the answer, and the heap with it.
unfoldable pub new_queue_node : Ptr → Ptr → Heap → Ptr × Heap
new_queue_node new val h =
    if new == null
    then (null, h)
    else (new, update h new (some (record { next = null; val = val })))

-- `malloc` answers for a queue as well: true if it has memory. A null queue is `none`.
unfoldable pub init_queue : Bool → Option Queue
init_queue true = some (record { front = null })
init_queue false = none

unfoldable pub is_queue_empty : Option Queue → ℤ
is_queue_empty none = negsuc 0
is_queue_empty (some q) = if q.front == null then pos 1 else pos 0

-- The loop that goes to the last node, on fuel: one more than there are nodes is enough.
unfoldable pub last_node : ℕ → Heap → Ptr → Option Ptr
last_node zero h p = none
last_node (suc k) h p = elim (h p) [
  | none ↦ none
  | some n ↦ let rest = last_node k h n.next in if n.next == null then some p else rest
]

-- What an operation returns, and leaves on the heap and of the queue.
abbrev pub Result : Type 0
Result = Option (ℤ × Heap × Option Queue)

unfoldable pub queue_push : ℕ → Ptr → Ptr → Heap → Option Queue → Result
queue_push fuel new val h none = some (negsuc 0, h, none)
queue_push fuel new val h (some q) =
    let made = new_queue_node new val h in
    if made.0 == null
    then some (negsuc 0, made.1, some q)
    else if q.front == null
    then some (pos 0, made.1, some (record { front = made.0 }))
    else do
      last ← last_node fuel made.1 q.front
      n ← made.1 last
      some (pos 0, update made.1 last (some (record { next = made.0; val = n.val })), some q)

unfoldable pub queue_pop : Heap → Option Queue → Result
queue_pop h none = some (negsuc 0, h, none)
queue_pop h (some q) =
    if q.front == null
    then some (negsuc 0, h, some q)
    else do n ← h q.front; some (pos 0, update h q.front none, some (record { front = n.next }))

unfoldable pub queue_front : Heap → Option Queue → Option Ptr
queue_front h none = some null
queue_front h (some q) = if q.front == null then some null else do n ← h q.front; some n.val

-- The loop of `empty_queue`, on fuel.
unfoldable pub pop_all : ℕ → Heap → Queue → Option (Heap × Queue)
unfolding queue_pop
pop_all zero h q = none
pop_all (suc k) h q = elim (q.front == null) [
  | true ↦ some (h, q)
  | false ↦ elim (queue_pop h (some q)) [
    | none ↦ none
    | some (r, h', none) ↦ none
    | some (r, h', some q') ↦ pop_all k h' q'
  ]
]

unfoldable pub empty_queue : ℕ → Heap → Option Queue → Result
empty_queue fuel h none = some (negsuc 0, h, none)
empty_queue fuel h (some q) = do r ← pop_all fuel h q; some (pos 0, r.0, some r.1)

-- The queue itself is given back too.
unfoldable pub del_queue : ℕ → Heap → Option Queue → Result
del_queue fuel h none = some (negsuc 0, h, none)
del_queue fuel h (some q) = do r ← empty_queue fuel h (some q); some (pos 0, r.1, none)
