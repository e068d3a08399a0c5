-- ===== src/User/Arguments/Sent.antt =====
-- A request from the start of user_f/user.c to the server's memory.
use home_banking_system.Base.{ℕ, ◌≤◌, ◌<◌, ◌≡◌, sym, ap, subst, ◌∙◌, some, List, ◌++◌, length}
use home_banking_system.Base.Int.{pos}
use home_banking_system.Types.{
  OpType, create_account, balance, transfer, shutdown, other, ReqValue, TlvRequest,
  max_bank_accounts, max_password_len,
}
use home_banking_system.Shared.Protocol.Bytes.{Read, request_bytes, read_request}
use home_banking_system.Shared.Protocol.Delivery.{NoNul}
use home_banking_system.Shared.Protocol.FifoName.{init_secure_fifo_name}
use home_banking_system.Shared.Protocol.RoundTrip.{Delivers, SameFor, read_request-request_bytes}
use home_banking_system.Server.Requests.Checks.{IsRequest, IsLogin}
use home_banking_system.Server.Office.Replies.{IsServableFor, IsServable}
use home_banking_system.User.Arguments.{request, prepare}
use home_banking_system.User.Arguments.Proper.{IsProper, HasName, IsProperFor, prepare-IsProper}
use home_banking_system.User.Arguments.Sendable.{
  IsKnown, IsKnown-IsType, IsSendable, prepare-IsSendable,
}

same-IsLogin : (v w : ReqValue) → IsRequest v → w.header ≡ v.header → IsLogin w
same-IsLogin v w q h = record {
  header_id = subst (λ x. x.account_id < max_bank_accounts) (sym h) q.header_id;
  password = subst (λ x. length x.password ≤ max_password_len) (sym h) q.password;
}

same-IsRequest :
    (v w : ReqValue) → IsRequest v → w.header ≡ v.header → w.word0 ≡ v.word0 → IsRequest w
same-IsRequest v w q h e = record {
  header_id = subst (λ x. x.account_id < max_bank_accounts) (sym h) q.header_id;
  other_id = subst (λ n. n < max_bank_accounts) (sym e) q.other_id;
  password = subst (λ x. length x.password ≤ max_password_len) (sym h) q.password;
}

-- What arrives is what the handlers ask for.
servable :
    (t : OpType) (v w : ReqValue)
    → IsKnown t
    → IsRequest v
    → IsProperFor t v
    → SameFor t v w
    → IsServableFor t w
servable create_account v w k q (a, b, c, d, e) (h, w0, w1, t) =
    (same-IsRequest v w q h w0, subst (λ bs. length bs ≤ max_password_len) (sym t) e)
servable transfer v w k q p (h, w0, w1) = same-IsRequest v w q h w0
servable balance v w k q p h = same-IsLogin v w q h
servable shutdown v w k q p h = same-IsLogin v w q h
servable (other n) v w k q p h = elim k [ ]

same_header : (t : OpType) (v w : ReqValue) → IsKnown t → SameFor t v w → w.header ≡ v.header
same_header create_account v w k (h, w0, w1, t) = h
same_header transfer v w k (h, w0, w1) = h
same_header balance v w k h = h
same_header shutdown v w k h = h
same_header (other n) v w k h = elim k [ ]

-- The bytes of the request `r`, and what `read_request` makes of them in front of `rest`.
abbrev pub Serves : Read (List ℕ) → TlvRequest → TlvRequest → List ℕ → Type 0
Serves read r old rest =
    (bs : List ℕ) × (request_bytes r ≡ some bs)
    × ((r' : TlvRequest) × (read_request read (bs ++ rest) old ≡ some (pos 0, r', rest))
        × (r'.type ≡ r.type)
        × (r'.length ≡ r.length)
        × SameFor r.type r.value r'.value
        × IsServable r')

-- The request of a user's program gets to the server as it is. The conditions: the process has a
-- number of at most five digits, the password and the last argument have no NUL, and `read` gives
-- written bytes when enough are there. If the start of the program makes a request, then the request
-- is written as bytes, and `read_request`, on those bytes followed by others and into any memory,
-- returns 0, leaves exactly the others, and makes a request with the same type and length, with the
-- same header and with the fields that the type has; the request that arrives is one that an office
-- can serve, of one of the four operations, with numbers that are those of accounts, passwords that
-- fit, and a process that has a FIFO's name.
pub prepare-Serves :
    (read : Read (List ℕ)) (r old : TlvRequest) (rest : List ℕ) (p : ℕ)
    (arg1 pwd arg3 arg4 arg5 : List ℕ)
    → Delivers read
    → p < 100_000
    → NoNul pwd
    → NoNul arg5
    → prepare (pos p) arg1 pwd arg3 arg4 arg5 ≡ request r
    → Serves read r old rest
unfolding HasName
prepare-Serves read r old rest p arg1 pwd arg3 arg4 arg5 delivers small pure pure5 e =
    let (packs, known, is_pid) =
      subst (IsSendable (pos p)) e
        (prepare-IsSendable p small arg1 pwd arg3 arg4 arg5 pure pure5) in
    let (is, proper, size, of_pid, fifo) =
      subst (IsProper (pos p)) e (prepare-IsProper (pos p) arg1 pwd arg3 arg4 arg5) in
    let (bs, writes, (r', reads, type_is, length_is, same)) =
      read_request-request_bytes read r old rest delivers packs (IsKnown-IsType r.type known)
        size in
    (
      bs,
      writes,
      (
        r',
        reads,
        type_is,
        length_is,
        same,
        record {
          value =
              subst (λ t. IsServableFor t r'.value) (sym type_is)
                (servable r.type r.value r'.value known is proper same);
          named =
              subst (λ z. (name : List ℕ) × (init_secure_fifo_name z ≡ some name))
                (sym (ap (λ x. x.pid) (same_header r.type r.value r'.value known same) ∙ is_pid))
                fifo;
        },
      ),
    )
