-- ===== src/Server/Office/Replies.antt =====
-- The reply of an office on every path.
use home_banking_system.Base.{
  ◌≤◌, ◌≡◌, refl, sym, subst, some, List, [], ◌∷◌, ℕ, arith, length, if◌then◌else◌,
}
use home_banking_system.Base.Int.{ℤ, is_neg}
use home_banking_system.Types.{
  OpType, create_account, balance, transfer, shutdown, other, TlvRequest, TlvReply, RepValue,
  RetCode, ReqValue, create_of, max_password_len,
}
use home_banking_system.Os.{log_mutex, Call, Answer, Prog, ret}
use home_banking_system.Shared.Log.{log_request, log_reply, for_known_type}
use home_banking_system.Shared.Protocol.{init_reply, init_reply_word}
use home_banking_system.Shared.Protocol.ReplyBytes.{reply_bytes_lem}
use home_banking_system.Shared.Protocol.FifoName.{init_secure_fifo_name}
use home_banking_system.Server.Paths.{
  Follows, Follows-then, Follows-and_then, Follows-if, Same, Keeps,
}
use home_banking_system.Server.SyncLog.{sync_log_request, sync_log_reply}
use home_banking_system.Server.Sync.{stdout_fileno}
use home_banking_system.Server.Sync.Discipline.{under_log_mutex-Follows}
use home_banking_system.Server.Requests.Checks.{IsRequest, IsLogin}
use home_banking_system.Server.Requests.Discipline.{IsFair}
use home_banking_system.Server.Office.{reply_on, code_for, send_reply, answer_to, answer}

-- What the handler of an operation asks of a request's value.
abbrev pub IsServableFor : OpType → ReqValue → Type 0
IsServableFor create_account v = IsRequest v × (length (create_of v).password ≤ max_password_len)
IsServableFor transfer v = IsRequest v
IsServableFor balance v = IsLogin v
IsServableFor shutdown v = IsLogin v
IsServableFor (other n) v = ⊥

-- A request of one of the operations, by a process whose FIFO has a name.
pub record IsServable (r : TlvRequest) : Type 0 where
  pub value : IsServableFor r.type r.value
  pub named : (name : List ℕ) × (init_secure_fifo_name r.value.header.pid ≡ some name)

module _ (Can : (c : Call) → Answer c → Type 0) (fair : IsFair Can) where
  line-Follows :
      (type : OpType) (p : Prog ℤ)
      → Follows Can (Same (log_mutex ∷ [])) (log_mutex ∷ []) p
      → Follows Can (Same (log_mutex ∷ [])) (log_mutex ∷ []) (for_known_type type p)
  unfolding for_known_type
  line-Follows create_account p h = h
  line-Follows balance p h = h
  line-Follows transfer p h = h
  line-Follows shutdown p h = h
  line-Follows (other n) p h = refl

  pub sync_log_request-Follows :
      (fd id : ℤ) (r : TlvRequest) → Follows Can (Same []) [] (sync_log_request fd id r)
  unfolding sync_log_request log_request
  sync_log_request-Follows fd id r =
      under_log_mutex-Follows Can fair.unlocks (log_request fd id r) [] tt
        (line-Follows r.type _ (tt, λ r can. refl))

  sync_log_reply-Follows :
      (fd id : ℤ) (r : TlvReply) → Follows Can (Same []) [] (sync_log_reply fd id r)
  unfolding sync_log_reply log_reply
  sync_log_reply-Follows fd id r =
      under_log_mutex-Follows Can fair.unlocks (log_reply fd id r) [] tt
        (line-Follows r.type _ (tt, λ r can. refl))

  init_reply_word-Follows :
      (type : OpType) (code : RetCode) (b : ℕ) (v : RepValue)
      → Follows Can (Keeps (λ made. made.1 ≤ 12) []) [] (init_reply_word type code b v)
  unfolding init_reply_word
  init_reply_word-Follows type code b v = ground arith

  init_reply-Follows :
      (memory : TlvReply) (r : TlvRequest) (code : RetCode) (b : ℕ)
      → Follows Can (Keeps (λ reply. reply.length ≤ 12) []) [] (init_reply memory r code b)
  unfolding init_reply
  init_reply-Follows memory r code b =
      Follows-and_then Can (λ made. made.1 ≤ 12) (Keeps (λ reply. reply.length ≤ 12) []) [] []
        (init_reply_word r.type code b _) _ (init_reply_word-Follows r.type code b _)
        (λ made fits. (refl, fits))

  send_reply-Follows :
      (fd : ℤ) (reply : TlvReply)
      → reply.length ≤ 12
      → Follows Can (Same []) [] (send_reply fd reply)
  unfolding send_reply
  send_reply-Follows fd reply fits =
      Follows-if Can (Same []) [] (is_neg fd) _ _ (λ _. refl)
        (λ _. rw (reply_bytes_lem reply fits) (tt, λ n _. (tt, λ n _. refl)))

  answer_to-Follows :
      (id : ℤ) (memory : TlvReply) (r : TlvRequest) (result : RetCode × ℕ) (name : List ℕ)
      → Follows Can (Same []) [] (answer_to id memory r result (some name))
  unfolding answer_to reply_on
  answer_to-Follows id memory r result name = (
    tt,
    λ fd _.
        Follows-and_then Can (λ reply. reply.length ≤ 12) (Same []) [] []
          (init_reply memory r (code_for fd result.0) result.1) _
          (init_reply-Follows memory r (code_for fd result.0) result.1)
          (λ reply fits.
            Follows-then Can (Same []) [] [] (sync_log_reply stdout_fileno id reply) _
              (sync_log_reply-Follows stdout_fileno id reply)
              (λ n.
                Follows-then Can (Same []) [] [] (if is_neg n then ret tt else send_reply fd reply)
                  _
                  (Follows-if Can (Same []) [] (is_neg n) (ret tt) (send_reply fd reply) (λ _. refl)
                    (λ _. send_reply-Follows fd reply fits))
                  (λ _. refl))),
  )

  pub answer-Follows :
      (id : ℤ) (memory : TlvReply) (r : TlvRequest) (result : RetCode × ℕ)
      → IsServable r
      → Follows Can (Same []) [] (answer id memory r result)
  unfolding answer
  answer-Follows id memory r result is =
      let (name, e) = is.named in
      subst (λ o. Follows Can (Same []) [] (answer_to id memory r result o)) (sym e)
        (answer_to-Follows id memory r result name)
