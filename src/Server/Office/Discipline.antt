-- ===== src/Server/Office/Discipline.antt =====
-- An office's thread on every path, whatever the other offices and the main thread do.
use home_banking_system.Base.{
  Bool, refl, subst, true, false, none, some, [], ◌∷◌, ℕ, zero, suc, Option, Option-cases, inl, inr,
}
use home_banking_system.Base.Int.{ℤ}
use home_banking_system.Types.{
  OpType, create_account, balance, transfer, shutdown, other, TlvRequest, TlvReply, RetCode,
  ReqValue, role_consumer,
}
use home_banking_system.Os.{
  req_queue_mutex, full, empty, Call, Answer, queue_front, ret, ◌>>=◌, do_call,
}
use home_banking_system.Shared.Log.{log_bank_office_open, log_bank_office_close}
use home_banking_system.Server.Paths.{
  Follows, Follows-then, Follows-and_then, Follows-if, Same, Keeps,
}
use home_banking_system.Server.SyncLog.{
  sync_log_request, sync_log_bank_office_open, sync_log_bank_office_close,
}
use home_banking_system.Server.Sync.{
  stdout_fileno, wait_sem_full, post_sem_empty, unlock_queue_mutex,
}
use home_banking_system.Server.Sync.Discipline.{under_log_mutex-Follows}
use home_banking_system.Server.Offices.{increase_active_offices, decrease_active_offices}
use home_banking_system.Server.Offices.Count.{offices_follow}
use home_banking_system.Server.Requests.{create_request, shutdown_request}
use home_banking_system.Server.Requests.Discipline.{IsFair}
use home_banking_system.Server.Requests.Discipline.Handlers.{
  create_request-Follows, balance_login-Follows, shutdown_login-Follows,
}
use home_banking_system.Server.Requests.Discipline.Transfer.{transfer_request-Follows}
use home_banking_system.Server.Office.{
  unknown, await_request, take_first, take_request, handle, handle_type, answer, leaves, serves,
  serve, office_round, rounds, balconies,
}
use home_banking_system.Server.Office.Queue.{
  wait_sem-Follows, post_sem-Follows, unlock_queue_mutex-Follows, or_exit-Follows, or_exit_locked,
}
use home_banking_system.Server.Office.Replies.{
  IsServableFor, IsServable, sync_log_request-Follows, answer-Follows,
}

module _ (Can : (c : Call) → Answer c → Type 0) (fair : IsFair Can) where
  await_request-Follows : (id : ℤ) → Follows Can (Same []) [] (await_request id)
  unfolding await_request wait_sem_full
  await_request-Follows id =
      or_exit-Follows Can fair.unlocks (Same []) [] [] (wait_sem_full id unknown) _
        (wait_sem-Follows Can fair.unlocks full role_consumer id unknown)
        (or_exit_locked Can fair.unlocks (Same []) id role_consumer unknown _ (
          refl,
          λ n _.
              or_exit-Follows Can fair.unlocks (Same []) (req_queue_mutex ∷ []) [] _ _
                (unlock_queue_mutex-Follows Can fair.unlocks id role_consumer unknown)
                (tt, λ b _. refl),
        ))

  -- What is taken is as the queue gives it.
  take_request-Follows :
      (id : ℤ)
      → ((r : TlvRequest) → Can queue_front (some r) → IsServable r)
      → Follows Can (Keeps IsServable []) [] (take_request id)
  unfolding take_request take_first post_sem_empty
  take_request-Follows id queued =
      or_exit_locked Can fair.unlocks (Keeps IsServable []) id role_consumer unknown
        (do first ← do_call queue_front; take_first id first)
        (
          refl,
          λ first can. elim (Option-cases first) [
            | inl e ↦ rw e tt
            | inr (r, e) ↦
                let is : IsServable r = queued r (subst (Can queue_front) e can) in
                let pid = r.value.header.pid in
                rw e (
                  refl,
                  λ n _.
                      or_exit-Follows Can fair.unlocks (Keeps IsServable []) (req_queue_mutex ∷ [])
                        [] (unlock_queue_mutex id role_consumer pid) _
                        (unlock_queue_mutex-Follows Can fair.unlocks id role_consumer pid)
                        (or_exit-Follows Can fair.unlocks (Keeps IsServable []) [] []
                          (post_sem_empty id pid) (ret r)
                          (post_sem-Follows Can fair.unlocks empty role_consumer id pid)
                          (refl, is)),
                )
          ],
        )

  handle_type-Follows :
      (srv dummy id : ℤ) (req_ret : Option RetCode) (b : ℕ) (type : OpType) (v : ReqValue)
      → IsServableFor type v
      → Follows Can (Same []) [] (handle_type srv dummy id req_ret b type v)
  unfolding handle_type
  handle_type-Follows srv dummy id req_ret b create_account v (is, short) =
      Follows-then Can (Same []) [] [] (create_request v id) _
        (create_request-Follows Can fair v is id short) (λ _. refl)
  handle_type-Follows srv dummy id req_ret b transfer v is =
      transfer_request-Follows Can v id b fair is
  handle_type-Follows srv dummy id req_ret b balance v is = balance_login-Follows Can fair v is id b
  handle_type-Follows srv dummy id req_ret b shutdown v is =
      Follows-then Can (Same []) [] [] (shutdown_request v id srv dummy) _
        (shutdown_login-Follows Can fair v is id srv dummy) (λ _. refl)
  handle_type-Follows srv dummy id req_ret b (other n) v is = absurd is

  module _ (queued : (r : TlvRequest) → Can queue_front (some r) → IsServable r) (srv dummy id : ℤ)
      (memory : TlvReply) (b : ℕ) where
    serve-Follows :
        (req_ret : Option RetCode) → Follows Can (Same []) [] (serve srv dummy id memory b req_ret)
    unfolding serve
    serve-Follows req_ret =
        Follows-and_then Can IsServable (Same []) [] [] (take_request id) _
          (take_request-Follows id queued)
          (λ r is.
            Follows-then Can (Same []) [] [] (sync_log_request stdout_fileno id r) _
              (sync_log_request-Follows Can fair stdout_fileno id r)
              (λ _.
                Follows-then Can (Same []) [] [] (handle srv dummy id req_ret b r) _
                  (handle_type-Follows srv dummy id req_ret b r.type r.value is.value)
                  (λ result.
                    Follows-then Can (Same []) [] [] (answer id memory r result) _
                      (answer-Follows Can fair id memory r result is)
                      (λ code.
                        or_exit-Follows Can fair.unlocks (Same []) [] [] decrease_active_offices
                          (ret (serves code)) ((offices_follow Can fair.unlocks).1) refl))))

    office_round-Follows :
        (req_ret : Option RetCode)
        → Follows Can (Same []) [] (office_round srv dummy id memory b req_ret)
    unfolding office_round
    office_round-Follows req_ret =
        Follows-then Can (Same []) [] [] (await_request id) _ (await_request-Follows id) (λ over.
          Follows-if Can (Same []) [] over (ret leaves) _ (λ _. refl)
            (λ _.
              or_exit-Follows Can fair.unlocks (Same []) [] [] increase_active_offices _
                ((offices_follow Can fair.unlocks).0) (serve-Follows req_ret)))

    rounds-Follows :
        (k : ℕ) (req_ret : Option RetCode)
        → Follows Can (Same []) [] (rounds srv dummy id memory b k req_ret)
    unfolding rounds
    rounds-Follows zero req_ret = refl
    rounds-Follows (suc k) req_ret =
        Follows-then Can (Same []) [] [] (office_round srv dummy id memory b req_ret) _
          (office_round-Follows req_ret)
          (λ round.
            elim round
              as (λ round. Follows Can (Same {A = Bool} []) [] (elim round [
                | leaves ↦ ret true
                | serves code ↦ rounds srv dummy id memory b k (some code)
              ])) [ leaves ↦ refl | serves code ↦ rounds-Follows k (some code) ])

  office_line-Follows :
      (id tid : ℤ)
      → Follows Can (Same []) [] (sync_log_bank_office_open stdout_fileno id tid)
        × Follows Can (Same []) [] (sync_log_bank_office_close stdout_fileno id tid)
  unfolding sync_log_bank_office_open log_bank_office_open sync_log_bank_office_close
      log_bank_office_close
  office_line-Follows id tid = (
    under_log_mutex-Follows Can fair.unlocks (log_bank_office_open stdout_fileno id tid) [] tt
        (tt, λ r can. refl),
    under_log_mutex-Follows Can fair.unlocks (log_bank_office_close stdout_fileno id tid) [] tt
        (tt, λ r can. refl),
  )

-- However many rounds the thread of an office makes and on every path through them, whatever other
-- threads do meanwhile and whichever calls fail: each mutex that is taken has a higher rank than all
-- that are held, only a held one is given back, the queue is used only under its mutex, an account is
-- written only under its own and the count of offices only under its own, nothing is undefined, and
-- between the rounds and at the end no mutex is held. This relies on a held mutex's being given back
-- successfully, on what is loaded having arrays of the right sizes and, if it is in use, a salt that
-- ends within its array, and on the queue's holding only requests of the four operations whose
-- numbers are those of accounts, whose passwords fit and whose process has a FIFO's name.
pub balconies-Follows :
    (Can : (c : Call) → Answer c → Type 0) (srv dummy id tid : ℤ) (memory : TlvReply) (b k : ℕ)
    → IsFair Can
    → ((r : TlvRequest) → Can queue_front (some r) → IsServable r)
    → Follows Can (Same []) [] (balconies srv dummy id tid memory b k)
unfolding balconies
balconies-Follows Can srv dummy id tid memory b k fair queued =
    Follows-then Can (Same []) [] [] (sync_log_bank_office_open stdout_fileno id tid) _
      ((office_line-Follows Can fair id tid).0)
      (λ _.
        Follows-then Can (Same []) [] [] (rounds srv dummy id memory b k none) _
          (rounds-Follows Can fair queued srv dummy id memory b k none)
          (λ left.
            Follows-if Can (Same []) [] left _ (ret false)
              (λ _.
                Follows-then Can (Same []) [] [] _ _ ((office_line-Follows Can fair id tid).1)
                  (λ _. refl))
              (λ _. refl)))
