-- ===== src/Shared/Crypto/Memory.antt =====
-- Writes to memory, as shared/crypto.c makes them, and the end of a C string.
use home_banking_system.Base.{
  ℕ, zero, suc, ◌+◌, ◌≤◌, ◌<◌, ◌≡◌, refl, ap, none, some, List, [], ◌∷◌, ◌++◌, arith, length,
  Option-cases, inl, inr,
}
use home_banking_system.Shared.Crypto.{c_string, overlay, write_at}

-- A write that fits succeeds and keeps the memory's size.
pub overlay_fits :
    (m bs : List ℕ)
    → length bs ≤ length m
    → (r : List ℕ) × (overlay m bs ≡ some r) × (length r ≡ length m)
unfolding overlay
overlay_fits m [] h = (m, refl, refl)
overlay_fits [] (b ∷ bs) h = absurd (omega arith)
overlay_fits (x ∷ m) (b ∷ bs) h =
    let (r, e, l) = overlay_fits m bs (omega arith) in (b ∷ r, rw e, ap suc l)

pub write_at_fits :
    (m : List ℕ) (n : ℕ) (bs : List ℕ)
    → n + length bs ≤ length m
    → (r : List ℕ) × (write_at m n bs ≡ some r) × (length r ≡ length m)
unfolding write_at
write_at_fits m zero bs h = overlay_fits m bs (omega arith)
write_at_fits [] (suc n) bs h = absurd (omega arith)
write_at_fits (x ∷ m) (suc n) bs h =
    let (r, e, l) = write_at_fits m n bs (omega arith) in (x ∷ r, rw e, ap suc l)

-- One that does not fit fails.
pub write_at_past : (m : List ℕ) (n : ℕ) (b : ℕ) → length m ≤ n → write_at m n (b ∷ []) ≡ none
unfolding write_at overlay
write_at_past [] zero b h = refl
write_at_past (x ∷ m) zero b h = absurd (omega arith)
write_at_past [] (suc n) b h = refl
write_at_past (x ∷ m) (suc n) b h = rw (write_at_past m n b (omega arith))

overlay-c_string :
    (m ds : List ℕ) {r : List ℕ}
    → overlay m (ds ++ 0 ∷ []) ≡ some r
    → length (c_string r) ≤ length ds
unfolding overlay c_string
overlay-c_string [] [] e = ground arith
overlay-c_string [] (d ∷ ds) e = ground arith
overlay-c_string (x ∷ m) [] e = ground arith
overlay-c_string (x ∷ m) (d ∷ ds) e = elim (Option-cases (overlay m (ds ++ 0 ∷ []))) [
  | inl f ↦ ground arith
  | inr (q, f) ↦ ground (arith, overlay-c_string m ds f)
]

-- A string written with its NUL ends the string that the memory holds.
pub write_at-c_string :
    (m : List ℕ) (n : ℕ) (ds : List ℕ) {r : List ℕ}
    → write_at m n (ds ++ 0 ∷ []) ≡ some r
    → length (c_string r) ≤ n + length ds
unfolding write_at c_string
write_at-c_string m zero ds e = omega (arith, overlay-c_string m ds e)
write_at-c_string [] (suc n) ds e = ground arith
write_at-c_string (x ∷ m) (suc n) ds e = elim (Option-cases (write_at m n (ds ++ 0 ∷ []))) [
  | inl f ↦ ground arith
  | inr (q, f) ↦ ground (arith, write_at-c_string m n ds f)
]

-- A later write leaves an earlier end alone.
pub write_at-c_string_before :
    (m : List ℕ) (n : ℕ) (bs : List ℕ) {r : List ℕ}
    → write_at m n bs ≡ some r
    → length (c_string m) < n
    → length (c_string r) ≡ length (c_string m)
unfolding write_at c_string
write_at-c_string_before m zero bs e h = absurd (omega arith)
write_at-c_string_before [] (suc n) bs e h = ground arith
write_at-c_string_before (x ∷ m) (suc n) bs e h = elim (Option-cases (write_at m n bs)) [
  | inl f ↦ ground arith
  | inr (q, f) ↦ ground (arith, write_at-c_string_before m n bs f)
]
