-- ===== src/Shared/Accounts/Create.antt =====
-- What `create_account` leaves in memory when no call fails.
use home_banking_system.Base.{
  ℕ, ◌+◌, ◌≤◌, ◌<◌, ◌≡◌, refl, ap, ◌∙◌, fun_ext, List, [], ◌∷◌, ◌++◌, arith, length, length-append,
  ne→==, ==_refl,
}
use home_banking_system.Base.Int.{pos}
use home_banking_system.Types.{
  Account, max_bank_accounts, empty_account_id, max_password_len, salt_len, hash_len, rc_ok,
}
use home_banking_system.Os.Run.{Env, Sys, done, run, run_then, reliable, Ends, update}
use home_banking_system.Shared.Crypto.{c_string, gen_salt, gen_hash, strcmp}
use home_banking_system.Shared.Crypto.Digest.{IsDigest, digest, gen_hash_lem, hashed}
use home_banking_system.Shared.Crypto.Salt.{rolled, gen_salt_lem}
use home_banking_system.Shared.Accounts.{load_account, change_account, create_account, authenticate}
use home_banking_system.Shared.Accounts.Login.{IsStored, verdict, authenticate_lem}

-- An account as it is created, with the salt that was made.
abbrev pub fresh : Env → List ℕ → ℕ → ℕ → List ℕ → Account
fresh env pwd i balance salt = record {
  account_id = i;
  hash = digest env pwd salt ++ 0 ∷ [];
  salt = salt;
  balance = balance;
}

abbrev pub created : ℕ → Account → Sys → Sys
created i a s = record s { accounts = update s.accounts i a; calls = s.calls + 70; piped = [] }

pub load_account_lem :
    (env : Env) (i : ℕ) (s : Sys)
    → i < max_bank_accounts
    → run env (load_account i) s ≡ done (s.accounts i) s
unfolding run load_account
load_account_lem env i s h = ground arith

pub change_account_lem :
    (env : Env) (i : ℕ) (change : Account → Account) (s : Sys)
    → i < max_bank_accounts
    → run env (change_account i change) s
      ≡ done tt (record s { accounts = update s.accounts i (change (s.accounts i)) })
unfolding run change_account load_account
change_account_lem env i change s h = ground arith

-- A chain of writes to one account is one write.
change_again :
    (env : Env) (i : ℕ) (change : Account → Account) (a : Account) (f : ℕ → Account) (s : Sys)
    → i < max_bank_accounts
    → run env (change_account i change) (record s { accounts = update f i a })
      ≡ done tt (record s { accounts = update f i (change a) })
change_again env i change a f s lt =
    change_account_lem env i change (record s { accounts = update f i a }) lt
    ∙ ap (λ (g : ℕ → Account). done tt (record s { accounts = g })) (fun_ext λ j. ground arith)

module _ (env : Env) (pwd : List ℕ) (i balance : ℕ) (s : Sys) (d : IsDigest env)
    (short : length pwd ≤ max_password_len) (lt : i < max_bank_accounts) where
  create_with_salt :
      (salt : List ℕ)
      → length (s.accounts i).hash ≡ hash_len + 1
      → length (c_string salt) ≤ salt_len
      → run (reliable env) (gen_salt (s.accounts i).salt (salt_len + 1) salt_len) s
        ≡ done (pos 0, salt) (rolled 15 s)
      → run (reliable env) (create_account pwd i balance) s
        ≡ done rc_ok (created i (fresh env pwd i balance salt) s)
  unfolding run create_account
  create_with_salt salt size ends made =
      run_then (reliable env) (load_account i) _ s (load_account_lem (reliable env) i s lt)
      ∙ run_then (reliable env) (gen_salt (s.accounts i).salt (salt_len + 1) salt_len) _ s made
      ∙ run_then (reliable env) (change_account i _) _ (rolled 15 s)
          (change_account_lem (reliable env) i _ (rolled 15 s) lt)
      ∙ run_then (reliable env) (gen_hash pwd salt (s.accounts i).hash) _ _
          (gen_hash_lem env pwd salt (s.accounts i).hash _ d (omega arith) size)
      ∙ run_then (reliable env) (change_account i _) _ _
          (change_again (reliable env) i _ _ s.accounts (hashed (rolled 15 s)) lt)
      ∙ run_then (reliable env) (change_account i _) _ _
          (change_again (reliable env) i _ _ s.accounts (hashed (rolled 15 s)) lt)
      ∙ run_then (reliable env) (change_account i _) _ _
          (change_again (reliable env) i _ _ s.accounts (hashed (rolled 15 s)) lt)
      ∙ ground arith

  pub create_account_lem :
      IsStored (s.accounts i)
      → (salt : List ℕ) × (run (reliable env) (create_account pwd i balance) s
          ≡ done rc_ok (created i (fresh env pwd i balance salt) s))
        × (length salt ≡ salt_len + 3)
        × (length (c_string salt) ≤ salt_len)
  create_account_lem h =
      let (salt, (made, size, ends)) =
        gen_salt_lem (reliable env) (s.accounts i).salt s (omega (arith, h.salt_size)) in
      (salt, create_with_salt salt h.hash_size ends made, size ∙ h.salt_size, ends)

strcmp_refl : (xs : List ℕ) → strcmp xs xs ≡ pos 0
unfolding strcmp
strcmp_refl [] = refl
strcmp_refl (x ∷ xs) = ground (arith, strcmp_refl xs)

pub fresh-IsStored :
    (env : Env) (pwd : List ℕ) (i balance : ℕ) (salt : List ℕ)
    → IsDigest env
    → length salt ≡ salt_len + 3
    → length (c_string salt) ≤ salt_len
    → IsStored (fresh env pwd i balance salt)
unfolding digest
fresh-IsStored env pwd i balance salt d size ends = record {
  hash_size = omega (
    arith,
    length-append (env.sha256sum (pwd ++ c_string salt)) (0 ∷ []),
    d (pwd ++ c_string salt),
  );
  salt_size = size;
  salt_ends = λ _. ends;
}

verdict-fresh :
    (env : Env) (pwd : List ℕ) (i balance : ℕ) (salt : List ℕ)
    → i < max_bank_accounts
    → verdict env pwd (fresh env pwd i balance salt) ≡ pos 0
unfolding verdict
verdict-fresh env pwd i balance salt lt =
    rw (ne→== i empty_account_id (omega arith))
      (strcmp_refl (c_string (digest env pwd salt ++ 0 ∷ [])))

update_self {ℓ} : {A : Type ℓ} (f : ℕ → A) (i : ℕ) (a : A) → update f i a i ≡ a
update_self f i a = rw (==_refl i) refl

-- When no call fails, an account that `create_account` made is one that `authenticate` accepts the
-- same password for: the first returns `RC_OK`, and the second 0 in the state that the first left.
pub authenticate-create_account :
    (env : Env) (pwd : List ℕ) (i balance : ℕ) (s : Sys)
    → IsDigest env
    → length pwd ≤ max_password_len
    → i < max_bank_accounts
    → IsStored (s.accounts i)
    → Ends
        (λ code t.
          (code ≡ rc_ok)
          × Ends (λ r _. r ≡ pos 0) (run (reliable env) (authenticate pwd (t.accounts i)) t))
        (run (reliable env) (create_account pwd i balance) s)
authenticate-create_account env pwd i balance s d short lt h =
    let (salt, made, size, ends) = create_account_lem env pwd i balance s d short lt h in
    let a : Account = fresh env pwd i balance salt in
    let stored = fresh-IsStored env pwd i balance salt d size ends in
    rw made (
      refl,
      rw (update_self s.accounts i a, authenticate_lem env pwd a (created i a s) d stored short)
          (verdict-fresh env pwd i balance salt lt),
    )
