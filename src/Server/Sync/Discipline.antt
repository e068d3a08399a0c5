-- ===== src/Server/Sync/Discipline.antt =====
-- The logged locks of server_f/sync.c against the rules of Server/Paths.
use home_banking_system.Base.{ℕ, ◌<◌, ◌≡◌, refl, arith, lt→ltb, List, [], ◌∷◌, if◌then◌else◌}
use home_banking_system.Base.Int.{ℤ, pos, not_zero, is_neg}
use home_banking_system.Types.{
  SyncMechOp, op_mutex_lock, op_mutex_unlock, SyncRole, max_bank_accounts,
}
use home_banking_system.Os.{
  Mutex, log_mutex, accounts_db_mutex, Call, Answer, mutex_unlock, Prog, ret,
}
use home_banking_system.Server.Paths.{
  Same, IsAbove, Follows-then, Follows, Follows-if, Follows-lock, Follows-unlock,
}
use home_banking_system.Os.Run.{release}
use home_banking_system.Shared.Log.{log_sync_mech, log_delay, log_sync_delay}
use home_banking_system.Server.SyncLog.{
  sync_log_sync_mech, sync_log_sync_delay, sync_log_delay, under_log_mutex,
}
use home_banking_system.Server.Sync.{
  stdout_fileno, lock_accounts_db_mutex, unlock_accounts_db_mutex, lock_logged, unlock_logged,
  lock_at, unlock_at,
}

-- The result 0 means that the mutex is held as well.
abbrev pub Taken : Mutex → List Mutex → ℤ → List Mutex → Type 0
Taken m held r h = h ≡ (if not_zero r then held else m ∷ held)

release_head :
    (i : ℕ) (held : List Mutex) → release (accounts_db_mutex i) (accounts_db_mutex i ∷ held) ≡ held
release_head i held = ground arith

module _ (Can : (c : Call) → Answer c → Type 0)
    (unlocks : (m : Mutex) (r : ℤ) → Can (mutex_unlock m) r → r ≡ pos 0) where
  pub under_log_mutex-Follows :
      (log_it : Prog ℤ) (held : List Mutex)
      → IsAbove log_mutex held
      → Follows Can (Same (log_mutex ∷ held)) (log_mutex ∷ held) log_it
      → Follows Can (Same held) held (under_log_mutex log_it)
  unfolding under_log_mutex
  under_log_mutex-Follows log_it held above logs =
      Follows-lock Can (Same held) log_mutex held _ above (λ r e. rw e refl)
        (λ r e. rw e (
          Follows-then Can (Same held) (log_mutex ∷ held) (log_mutex ∷ held) log_it _ logs (λ n.
            Follows-unlock Can (Same held) log_mutex (log_mutex ∷ held) held _ (unlocks log_mutex)
              refl refl refl)))

  pub sync_log_sync_mech-Follows :
      (fd id : ℤ) (op : SyncMechOp) (role : SyncRole) (sid : ℤ) (held : List Mutex)
      → IsAbove log_mutex held
      → Follows Can (Same held) held (sync_log_sync_mech fd id op role sid)
  unfolding sync_log_sync_mech log_sync_mech
  sync_log_sync_mech-Follows fd id op role sid held above =
      under_log_mutex-Follows (log_sync_mech fd id op role sid) held above (tt, λ r can. refl)

  pub sync_log_sync_delay-Follows :
      (fd id sid : ℤ) (ms : ℕ) (held : List Mutex)
      → IsAbove log_mutex held
      → Follows Can (Same held) held (sync_log_sync_delay fd id sid ms)
  unfolding sync_log_sync_delay log_sync_delay
  sync_log_sync_delay-Follows fd id sid ms held above =
      under_log_mutex-Follows (log_sync_delay fd id sid ms) held above (tt, λ r can. refl)

  pub sync_log_delay-Follows :
      (fd id : ℤ) (ms : ℕ) → Follows Can (Same []) [] (sync_log_delay fd id ms)
  unfolding sync_log_delay log_delay
  sync_log_delay-Follows fd id ms =
      under_log_mutex-Follows (log_delay fd id ms) [] tt (tt, λ r can. refl)

  pub lock_accounts_db_mutex-Follows :
      (id : ℤ) (role : SyncRole) (i : ℕ) (held : List Mutex)
      → i < max_bank_accounts
      → IsAbove (accounts_db_mutex i) held
      → IsAbove log_mutex held
      → Follows Can (Taken (accounts_db_mutex i) held) held (lock_accounts_db_mutex id role (pos i))
  unfolding lock_accounts_db_mutex lock_logged lock_at
  lock_accounts_db_mutex-Follows id role i held small above logs =
      Follows-then Can (Taken (accounts_db_mutex i) held) held held
        (sync_log_sync_mech stdout_fileno id op_mutex_lock role (pos i)) _
        (sync_log_sync_mech-Follows stdout_fileno id op_mutex_lock role (pos i) held logs)
        (λ r.
          Follows-if Can (Taken (accounts_db_mutex i) held) held (is_neg r) (ret r)
            (lock_at (pos i)) (λ e. ground arith)
            (λ e. rw (lt→ltb i max_bank_accounts small) (
              Follows-lock Can (Taken (accounts_db_mutex i) held) (accounts_db_mutex i) held ret
                above (λ r e. rw e refl) (λ r e. rw e refl))))

  pub unlock_accounts_db_mutex-Follows :
      (id : ℤ) (role : SyncRole) (i : ℕ) (held : List Mutex)
      → i < max_bank_accounts
      → IsAbove log_mutex held
      → Follows Can
          (Same held)
          (accounts_db_mutex i ∷ held)
          (unlock_accounts_db_mutex id role (pos i))
  unfolding unlock_accounts_db_mutex unlock_logged unlock_at
  unlock_accounts_db_mutex-Follows id role i held small logs =
      rw (lt→ltb i max_bank_accounts small) (
        Follows-unlock Can (Same held) (accounts_db_mutex i) (accounts_db_mutex i ∷ held) held _
          (unlocks (accounts_db_mutex i)) (ground arith) (release_head i held)
          (Follows-then Can (Same held) held held
            (sync_log_sync_mech stdout_fileno id op_mutex_unlock role (pos i)) _
            (sync_log_sync_mech-Follows stdout_fileno id op_mutex_unlock role (pos i) held logs)
            (λ r.
              Follows-if Can (Same held) held (is_neg r) (ret r) (ret (pos 0)) (λ e. refl)
                (λ e. refl))))
