-- ===== src/Server/Paths/Crypto.antt =====
-- shared/crypto.c on every path, whatever `rand`, the pipes and the child process give.
use home_banking_system.Base.{
  ℕ, zero, suc, ◌+◌, ◌*◌, ◌≤◌, ◌<◌, ◌≡◌, ◌%◌, refl, sym, subst, ◌∙◌, some, List, [], ◌∷◌, ◌++◌,
  arith, lt→ltb, length, length-append, length-set, ◌⊎◌, inl, inr, Option-cases, Bool-cases,
}
use home_banking_system.Base.Int.{ℤ, pos, negsuc, not_zero, eqb_ℤ, ltb_ℤ}
use home_banking_system.Types.{salt_len, hash_len, max_password_len}
use home_banking_system.Os.{Mutex, Call, Answer, Prog, ret, ◌>>=◌}
use home_banking_system.Shared.Crypto.{
  c_string, overlay, write_at, sprintf_x, gen_random_int, poke, salt_loop, gen_salt, read_into,
  gen_hash, parent, child, hash_process,
}
use home_banking_system.Shared.Crypto.Memory.{write_at_fits, write_at-c_string_before}
use home_banking_system.Shared.Crypto.Salt.{round_lem}
use home_banking_system.Server.Paths.{Follows, Follows-mono, Follows-and_then, Keeps}

-- What the loop leaves.
abbrev SaltLeft : ℕ → ℕ → List ℕ → List ℕ → Type 0
SaltLeft k i buf r =
    (length r ≡ length buf)
    × ((0 < k) ⊎ (length (c_string buf) ≤ 4 * i + 4) → length (c_string r) ≤ 4 * (i + k) + 4)

abbrev word : ℕ → ℕ → ℕ → ℕ → ℕ
word a b c d = a % 0xff + (b % 0xff) * 0x100 + (c % 0xff) * 0x10000 + (d % 0xff) * 0x1000000

poke_lem :
    (m : List ℕ) (n : ℕ) (bs : List ℕ) {r : List ℕ} → write_at m n bs ≡ some r → poke m n bs ≡ ret r
unfolding poke
poke_lem m n bs e = rw (e, poke) refl

abbrev pub SaltIn : List ℕ → ℤ × List ℕ → Type 0
SaltIn buf r = (length r.1 ≡ length buf) × (length (c_string r.1) ≤ salt_len)

length-overlay : (m bs : List ℕ) {r : List ℕ} → overlay m bs ≡ some r → length r ≡ length m
unfolding overlay
length-overlay m [] e = ground arith
length-overlay [] (b ∷ bs) e = ground arith
length-overlay (x ∷ m) (b ∷ bs) e = elim (Option-cases (overlay m bs)) [
  | inl f ↦ ground arith
  | inr (q, f) ↦ ground (arith, length-overlay m bs f)
]

length-read_into : (m bs : List ℕ) → length (read_into m bs) ≡ length m
unfolding read_into
length-read_into m bs = elim (Option-cases (overlay m bs)) [
  | inl f ↦ ground arith
  | inr (q, f) ↦ ground (arith, length-overlay m bs f)
]

-- The memory that a hash is written to keeps its size.
abbrev pub Sized : List ℕ → List Mutex → ℤ × List ℕ → List Mutex → Type 0
Sized hash = λ held. Keeps (λ r. length r.1 ≡ length hash) held

module _ (Can : (c : Call) → Answer c → Type 0) (held : List Mutex) where
  poke-Follows :
      {B : Type 0} (Q : B → List Mutex → Type 0) (m : List ℕ) (n : ℕ) (bs : List ℕ) {r : List ℕ}
      (f : List ℕ → Prog B)
      → write_at m n bs ≡ some r
      → Follows Can Q held (f r)
      → Follows Can Q held (poke m n bs >>= f)
  poke-Follows Q m n bs f e p =
      subst (λ q. Follows Can Q held (q >>= f)) (sym (poke_lem m n bs e)) p

  salt_loop-Follows :
      (k i : ℕ) (buf : List ℕ)
      → 4 * (i + k) + 5 ≤ length buf
      → Follows Can (Keeps (SaltLeft k i buf) held) held (salt_loop k i buf)
  unfolding salt_loop gen_random_int
  salt_loop-Follows zero i buf h = (refl, (refl, λ p. omega arith))
  salt_loop-Follows (suc k) i buf h = (
    tt,
    λ a _. (
      tt,
      λ b _. (
        tt,
        λ c _. (
          tt,
          λ d _.
              let (r, e, l, short) = round_lem buf i (word a b c d) (omega arith) in
              poke-Follows (Keeps (SaltLeft (suc k) i buf) held) buf (i * 4)
                (sprintf_x (word a b c d)) (salt_loop k (suc i)) e
                (Follows-mono Can (Keeps (SaltLeft k (suc i) r) held)
                  (Keeps (SaltLeft (suc k) i buf) held) held (salt_loop k (suc i) r)
                  (λ q h' (same, (l', c')).
                    (same, (l' ∙ l, λ p. omega (arith, c' (inr (omega arith))))))
                  (salt_loop-Follows k (suc i) r (omega arith))),
        ),
      ),
    ),
  )

  pub gen_salt-Follows :
      (buf : List ℕ)
      → salt_len + 2 ≤ length buf
      → Follows Can (Keeps (SaltIn buf) held) held (gen_salt buf (salt_len + 1) salt_len)
  unfolding gen_salt
  gen_salt-Follows buf h =
      Follows-and_then Can (SaltLeft 15 0 buf) (Keeps (SaltIn buf) held) held held
        (salt_loop 15 0 buf) _ (salt_loop-Follows 15 0 buf (omega arith))
        (λ q (l, c).
          let (r, e, l') = write_at_fits q (salt_len + 1) (0 ∷ []) (omega arith) in
          poke-Follows (Keeps (SaltIn buf) held) q (salt_len + 1) (0 ∷ []) _ e (
            refl,
            (
              l' ∙ l,
              omega (
                arith,
                c (inl (omega arith)),
                write_at-c_string_before q (salt_len + 1) (0 ∷ []) e
                    (omega (arith, c (inl (omega arith)))),
              ),
            ),
          ))

  parent-Follows :
      (pass_salt hash : List ℕ) → Follows Can (Sized hash held) held (parent pass_salt hash)
  unfolding parent
  parent-Follows pass_salt hash = (
    tt,
    λ r _. elim (Bool-cases (eqb_ℤ r (negsuc 0))) [
      | inl e ↦ rw e (refl, refl)
      | inr e ↦ rw e (
        tt,
        λ r _. elim (Bool-cases (eqb_ℤ r (negsuc 0))) [
          | inl e ↦ rw e (refl, refl)
          | inr e ↦ rw e (
            tt,
            λ r _. elim (Bool-cases (eqb_ℤ r (negsuc 0))) [
              | inl e ↦ rw e (refl, refl)
              | inr e ↦ rw e (
                tt,
                λ r _. elim (Bool-cases (eqb_ℤ r (negsuc 0))) [
                  | inl e ↦ rw e (refl, refl)
                  | inr e ↦ rw e (
                    tt,
                    λ out _. elim (Bool-cases (eqb_ℤ out.0 (negsuc 0))) [
                      | inl e ↦ rw e (refl, refl)
                      | inr e ↦ rw e (
                        tt,
                        λ r _. elim (Bool-cases (eqb_ℤ r (negsuc 0))) [
                          | inl e ↦ rw e (refl, length-read_into hash out.1)
                          | inr e ↦ rw e (
                            tt,
                            λ r _. (refl, length-set _ hash_len 0 ∙ length-read_into hash out.1),
                          )
                        ],
                      )
                    ],
                  )
                ],
              )
            ],
          )
        ],
      )
    ],
  )

  child-Follows : (hash : List ℕ) → Follows Can (Sized hash held) held (child hash)
  unfolding child
  child-Follows hash = (
    tt,
    λ r _. elim (Bool-cases (eqb_ℤ r (negsuc 0))) [
      | inl e ↦ rw e (refl, refl)
      | inr e ↦ rw e (
        tt,
        λ r _. elim (Bool-cases (eqb_ℤ r (negsuc 0))) [
          | inl e ↦ rw e (refl, refl)
          | inr e ↦ rw e (tt, λ _ _. (tt, λ _ _. (tt, λ _ _. (refl, refl))))
        ],
      )
    ],
  )

  hash_process-Follows :
      (pass_salt hash : List ℕ) → Follows Can (Sized hash held) held (hash_process pass_salt hash)
  unfolding hash_process
  hash_process-Follows pass_salt hash = (
    tt,
    λ r _. elim (Bool-cases (not_zero r)) [
      | inl e ↦ rw e (refl, refl)
      | inr e ↦ rw e (
        tt,
        λ r _. elim (Bool-cases (not_zero r)) [
          | inl e ↦ rw e (refl, refl)
          | inr e ↦ rw e (
            tt,
            λ pid _. elim (Bool-cases (eqb_ℤ pid (negsuc 0))) [
              | inl e ↦ rw e (refl, refl)
              | inr e ↦ rw e (elim (Bool-cases (ltb_ℤ (pos 0) pid)) [
                | inl f ↦ rw f (parent-Follows pass_salt hash)
                | inr f ↦ rw f (child-Follows hash)
              ])
            ],
          )
        ],
      )
    ],
  )

  -- The memory for the hash keeps its size.
  pub gen_hash-Follows :
      (pwd salt hash : List ℕ)
      → length pwd ≤ max_password_len
      → length (c_string salt) ≤ salt_len
      → Follows Can (Sized hash held) held (gen_hash pwd salt hash)
  unfolding gen_hash
  gen_hash-Follows pwd salt hash short ends =
      rw
        (lt→ltb (length (pwd ++ c_string salt)) (max_password_len + salt_len + 1)
          (omega (arith, length-append pwd (c_string salt))))
        (hash_process-Follows (pwd ++ c_string salt) hash)
