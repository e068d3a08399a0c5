-- ===== src/Server/Threads/Invariant.antt =====
-- What holds of threads side by side after every step: each follows the rules of Server/Paths from
-- where it is, and no mutex is held by two.
use home_banking_system.Base.{
  ℕ, ◌<◌, ◌≡◌, ◌≢◌, refl, sym, subst, ◌∙◌, true, false, [], ◌==◌, arith, ◌⊎◌, inl, inr, Bool-cases,
}
use home_banking_system.Os.{Mutex, Call, Answer}
use home_banking_system.Os.Run.{is_held, update}
use home_banking_system.Server.Paths.{Follows, Same, held_after}
use home_banking_system.Server.Threads.{Thread, IsPossible, after, Step, step, Reach, start, next}
use home_banking_system.Server.Threads.Held.{held_after-cases}

true≢false : true ≢ false
true≢false e = ground arith

module _ {A : Type 0} (Can : (c : Call) → Answer c → Type 0) (n : ℕ) where
  abbrev pub AllFollow : (ℕ → Thread A) → Type 0
  AllFollow ts = (i : ℕ) → i < n → Follows Can (Same []) (ts i).held (ts i).rest

  abbrev pub IsExclusive : (ℕ → Thread A) → Type 0
  IsExclusive ts =
      (i j : ℕ) (m : Mutex)
      → i < n
      → j < n
      → i ≢ j
      → is_held m (ts i).held ≡ true
      → is_held m (ts j).held ≡ false

  update-cases :
      (ts : ℕ → Thread A) (i j : ℕ) (t : Thread A)
      → ((i ≡ j) × (update ts i t j ≡ t)) ⊎ ((i ≢ j) × (update ts i t j ≡ ts j))
  update-cases ts i j t = elim (Bool-cases (i == j)) [
    | inl e ↦ inl (ground arith, rw e refl)
    | inr e ↦ inr (ground arith, rw e refl)
  ]

  step-AllFollow : (ts us : ℕ → Thread A) → Step Can n ts us → AllFollow ts → AllFollow us
  step-AllFollow _ _ (step ts i c k r lt is can possible) h j lt' =
      let (may, goes_on) = subst (Follows Can (Same []) (ts i).held) is (h i lt) in
      elim (update-cases ts i j (after (ts i) c r (k r))) [
        | inl (same, e) ↦ rw e (goes_on r can)
        | inr (differs, e) ↦ rw e (h j lt')
      ]

  -- The thread that steps, against another.
  others-IsExclusive :
      (ts : ℕ → Thread A) (i j : ℕ) (c : Call) (r : Answer c) (m : Mutex)
      → IsExclusive ts
      → IsPossible n ts c r
      → i < n
      → j < n
      → i ≢ j
      → is_held m (held_after c r (ts i).held) ≡ true
      → is_held m (ts j).held ≡ false
  others-IsExclusive ts i j c r m h possible lt lt' differs holds =
      elim (held_after-cases n ts c r (ts i).held m possible holds) [
        | inl held ↦ h i j m lt lt' differs held
        | inr free ↦ free j lt'
      ]

  step-IsExclusive : (ts us : ℕ → Thread A) → Step Can n ts us → IsExclusive ts → IsExclusive us
  step-IsExclusive _ _ (step ts i c k r lt is can possible) h a b m lt_a lt_b differs holds =
      let t = after (ts i) c r (k r) in
      elim (update-cases ts i a t) [
        | inl (ia, ea) ↦ elim (update-cases ts i b t) [
          | inl (ib, eb) ↦ absurd (differs (sym ia ∙ ib))
          | inr (ib, eb) ↦
              subst (λ t. is_held m t.held ≡ false) (sym eb)
                (others-IsExclusive ts i b c r m h possible lt lt_b ib
                  (subst (λ t. is_held m t.held ≡ true) ea holds))
        ]
        | inr (ia, ea) ↦
            let holds' : is_held m (ts a).held ≡ true =
              subst (λ t. is_held m t.held ≡ true) ea holds in
            elim (update-cases ts i b t) [
              | inr (ib, eb) ↦
                  subst (λ t. is_held m t.held ≡ false) (sym eb) (h a b m lt_a lt_b differs holds')
              | inl (ib, eb) ↦ elim (Bool-cases (is_held m t.held)) [
                | inr f ↦ subst (λ t. is_held m t.held ≡ false) (sym eb) f
                | inl f ↦ absurd (
                    true≢false
                      (sym holds' ∙ others-IsExclusive ts i a c r m h possible lt lt_a ia f))
              ]
            ]
      ]

  pub reach-Invariant :
      (from ts : ℕ → Thread A)
      → Reach Can n from ts
      → AllFollow from
      → IsExclusive from
      → AllFollow ts × IsExclusive ts
  reach-Invariant from _ start all excludes = (all, excludes)
  reach-Invariant from _ (next ts us reach s) all excludes =
      let (all', excludes') = reach-Invariant from ts reach all excludes in
      (step-AllFollow ts us s all', step-IsExclusive ts us s excludes')
