-- ===== src/Server/Office/Queue.antt =====
-- The semaphores and the queue's mutex of server_f/sync.c against the rules of Server/Paths.
use home_banking_system.Base.{◌≡◌, refl, List, [], ◌∷◌, arith, Bool-cases, inl, inr}
use home_banking_system.Base.Int.{ℤ, pos, not_zero, is_neg}
use home_banking_system.Types.{
  SyncMechOp, SyncRole, op_mutex_lock, op_mutex_unlock, op_sem_wait, op_sem_post,
}
use home_banking_system.Os.{
  Mutex, req_queue_mutex, Call, Answer, mutex_unlock, Sem, sem_wait, Prog, ret, do_call,
}
use home_banking_system.Server.Paths.{
  Same, Follows, Follows-then, Follows->>=, Follows-if, Follows-lock, Follows-unlock,
}
use home_banking_system.Shared.Log.{log_sync_mech_sem}
use home_banking_system.Server.SyncLog.{sync_log_sync_mech, sync_log_sync_mech_sem}
use home_banking_system.Server.Sync.{
  stdout_fileno, get_value_sem, wait_sem, post_sem, lock_logged, unlock_logged, lock_queue_mutex,
  unlock_queue_mutex,
}
use home_banking_system.Server.Sync.Discipline.{
  Taken, under_log_mutex-Follows, sync_log_sync_mech-Follows,
}
use home_banking_system.Server.Office.{or_exit}

module _ (Can : (c : Call) → Answer c → Type 0)
    (unlocks : (m : Mutex) (r : ℤ) → Can (mutex_unlock m) r → r ≡ pos 0) where
  sem_line-Follows :
      (id : ℤ) (op : SyncMechOp) (role : SyncRole) (sid val : ℤ)
      → Follows Can (Same []) [] (sync_log_sync_mech_sem stdout_fileno id op role sid val)
  unfolding sync_log_sync_mech_sem log_sync_mech_sem
  sem_line-Follows id op role sid val =
      under_log_mutex-Follows Can unlocks (log_sync_mech_sem stdout_fileno id op role sid val) [] tt
        (tt, λ r can. refl)

  get_value_sem-Follows : (sem : Sem) → Follows Can (Same []) [] (get_value_sem sem)
  unfolding get_value_sem
  get_value_sem-Follows sem =
      (tt, λ r _. Follows-if Can (Same []) [] (not_zero r.0) _ _ (λ _. refl) (λ _. refl))

  pub wait_sem-Follows :
      (sem : Sem) (role : SyncRole) (id sid : ℤ)
      → Follows Can (Same []) [] (wait_sem sem role id sid)
  unfolding wait_sem
  wait_sem-Follows sem role id sid =
      Follows-then Can (Same []) [] [] (get_value_sem sem) _ (get_value_sem-Follows sem) (λ v.
        Follows-if Can (Same []) [] (not_zero v.0) _ _ (λ _. refl)
          (λ _.
            Follows-then Can (Same []) [] []
              (sync_log_sync_mech_sem stdout_fileno id op_sem_wait role sid v.1) _
              (sem_line-Follows id op_sem_wait role sid v.1)
              (λ r.
                Follows-if Can (Same []) [] (is_neg r) (ret r) (do_call (sem_wait sem)) (λ _. refl)
                  (λ _. (tt, λ r _. refl)))))

  pub post_sem-Follows :
      (sem : Sem) (role : SyncRole) (id sid : ℤ)
      → Follows Can (Same []) [] (post_sem sem role id sid)
  unfolding post_sem
  post_sem-Follows sem role id sid = (
    tt,
    λ r _.
        Follows-if Can (Same []) [] (not_zero r) _ _ (λ _. refl)
          (λ _.
            Follows-then Can (Same []) [] [] (get_value_sem sem) _ (get_value_sem-Follows sem) (λ v.
              Follows-if Can (Same []) [] (not_zero v.0) _ _ (λ _. refl)
                (λ _.
                  Follows-then Can (Same []) [] []
                    (sync_log_sync_mech_sem stdout_fileno id op_sem_post role sid v.1) _
                    (sem_line-Follows id op_sem_post role sid v.1)
                    (λ r.
                      Follows-if Can (Same []) [] (is_neg r) (ret r) (ret (pos 0)) (λ _. refl)
                        (λ _. refl))))),
  )

  pub lock_queue_mutex-Follows :
      (id : ℤ) (role : SyncRole) (sid : ℤ)
      → Follows Can (Taken req_queue_mutex []) [] (lock_queue_mutex id role sid)
  unfolding lock_queue_mutex lock_logged
  lock_queue_mutex-Follows id role sid =
      Follows-then Can (Taken req_queue_mutex []) [] []
        (sync_log_sync_mech stdout_fileno id op_mutex_lock role sid) _
        (sync_log_sync_mech-Follows Can unlocks stdout_fileno id op_mutex_lock role sid [] tt)
        (λ r.
          Follows-if Can (Taken req_queue_mutex []) [] (is_neg r) (ret r) _ (λ e. ground arith)
            (λ e.
              Follows-lock Can (Taken req_queue_mutex []) req_queue_mutex [] ret tt
                (λ r e. rw e refl) (λ r e. rw e refl)))

  pub unlock_queue_mutex-Follows :
      (id : ℤ) (role : SyncRole) (sid : ℤ)
      → Follows Can (Same []) (req_queue_mutex ∷ []) (unlock_queue_mutex id role sid)
  unfolding unlock_queue_mutex unlock_logged
  unlock_queue_mutex-Follows id role sid =
      Follows-unlock Can (Same []) req_queue_mutex (req_queue_mutex ∷ []) [] _
        (unlocks req_queue_mutex) refl refl
        (Follows-then Can (Same []) [] []
          (sync_log_sync_mech stdout_fileno id op_mutex_unlock role sid) _
          (sync_log_sync_mech-Follows Can unlocks stdout_fileno id op_mutex_unlock role sid [] tt)
          (λ r.
            Follows-if Can (Same []) [] (is_neg r) (ret r) (ret (pos 0)) (λ _. refl) (λ _. refl)))

  -- A call whose failure ends the process.
  pub or_exit-Follows :
      {A : Type 0} (Q : A → List Mutex → Type 0) (held after : List Mutex) (p : Prog ℤ)
      (rest : Prog A)
      → Follows Can (Same after) held p
      → Follows Can Q after rest
      → Follows Can Q held (or_exit p rest)
  or_exit-Follows Q held after p rest hp hrest =
      Follows-then Can Q held after p _ hp
        (λ r. Follows-if Can Q after (not_zero r) _ rest (λ _. tt) (λ _. hrest))

  -- The queue's mutex, taken or the process ends.
  pub or_exit_locked :
      {A : Type 0} (Q : A → List Mutex → Type 0) (id : ℤ) (role : SyncRole) (sid : ℤ)
      (rest : Prog A)
      → Follows Can Q (req_queue_mutex ∷ []) rest
      → Follows Can Q [] (or_exit (lock_queue_mutex id role sid) rest)
  or_exit_locked Q id role sid rest p =
      Follows->>= Can (Taken req_queue_mutex []) Q [] (lock_queue_mutex id role sid) _
        (lock_queue_mutex-Follows id role sid)
        (λ r h taken. elim (Bool-cases (not_zero r)) [
          | inl e ↦ rw (taken, e) tt
          | inr e ↦ rw (taken, e) p
        ])
