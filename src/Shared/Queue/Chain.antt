-- ===== src/Shared/Queue/Chain.antt =====
-- The chain of nodes that a queue stands for.
use home_banking_system.Base.{
  ◌≡◌, ◌≢◌, refl, ◌∙◌, Bool, true, false, ◌||◌, none, some, List, [], ◌∷◌, ◌==◌, arith,
}
use home_banking_system.Shared.Queue.{Ptr, null, Heap}

-- The address and the value of each node, from the front.
abbrev pub Cells : Type 0
Cells = List (Ptr × Ptr)

abbrev pub is_in : Ptr → Cells → Bool
is_in a [] = false
is_in a ((p, v) ∷ cs) = (a == p) || is_in a cs

-- From `p` the `next` pointers lead through exactly these nodes, all distinct, to null.
abbrev pub Chain : Heap → Ptr → Cells → Type 0
Chain h p [] = p ≡ null
Chain h p ((a, v) ∷ cs) =
    (p ≡ a)
    × (a ≢ null)
    × (is_in a cs ≡ false)
    × ((next : Ptr) × (h a ≡ some (record { next = next; val = v })) × Chain h next cs)

-- A chain survives a change elsewhere.
pub Chain-frame :
    (h g : Heap) (p : Ptr) (cs : Cells)
    → ((a : Ptr) → is_in a cs ≡ true → g a ≡ h a)
    → Chain h p cs
    → Chain g p cs
Chain-frame h g p [] same c = c
Chain-frame h g p ((a, v) ∷ cs) same (e, live, out, (n, at, rest)) = (
  e,
  live,
  out,
  (n, same a (ground arith) ∙ at, Chain-frame h g n cs (λ b i. same b (ground arith)) rest),
)

-- A fresh node is not in the chain.
pub Chain-fresh :
    (h : Heap) (p : Ptr) (cs : Cells) (a : Ptr) → Chain h p cs → h a ≡ none → is_in a cs ≡ false
Chain-fresh h p [] a c unused = refl
Chain-fresh h p ((b, v) ∷ cs) a (e, live, out, (n, at, rest)) unused =
    ground (arith, Chain-fresh h n cs a rest unused)
