-- ===== src/Shared/Log/Whole.antt =====
-- Lines of shared/log.c that `atomicPrintf` writes whole.
use home_banking_system.Base.{
  ℕ, zero, suc, ◌+◌, ◌-◌, ◌≤◌, ◌<◌, ◌≡◌, refl, ap, some, List, [], ◌∷◌, length, take, arith,
}
use home_banking_system.Base.Int.{ℤ, pos, to_int}
use home_banking_system.Types.{
  TlvRequest, TlvReply, OpType, rc_ok, rc_srv_down, rc_srv_timeout, rc_usr_down, rc_login_fail,
  rc_op_nallow, rc_id_in_use, rc_id_not_found, rc_same_id, rc_no_funds, rc_too_high, rc_other,
  op_mutex_lock, op_mutex_unlock, op_mutex_trylock, op_cond_signal, op_cond_wait, op_sem_init,
  op_sem_post, op_sem_wait, create_account, balance, transfer, shutdown, other, RetCode, SyncMechOp,
  max_password_len,
}
use home_banking_system.Os.{Line, request, reply}
use home_banking_system.Shared.Protocol.FifoName.{sprintf_d}
use home_banking_system.Shared.Log.Names.{op_type_str, rc_str, sync_mech_str}
use home_banking_system.Shared.Log.Fields.{
  unsigned, joined, total, length-joined, length-copies, length-right, length-left,
  length-zero_padded_le, length-sprintf_d, length-unsigned,
}
use home_banking_system.Shared.Log.Text.{
  atomic_printf, pipe_buf, line_text, named, base_request_info, request_parts, base_reply_info,
  reply_parts, request_text, reply_text, request_tail, reply_tail,
}

-- What is written is the text, and its length is returned.
abbrev pub IsWhole : List ℕ → Type 0
IsWhole text = atomic_printf text ≡ (text, pos (length text))

take_short {ℓ} : {A : Type ℓ} (n : ℕ) (xs : List A) → length xs ≤ n → take n xs ≡ xs
take_short zero [] h = refl
take_short zero (x ∷ xs) h = absurd (omega arith)
take_short (suc n) [] h = refl
take_short (suc n) (x ∷ xs) h = ap (λ ys. x ∷ ys) (take_short n xs (omega arith))

short-IsWhole : (text : List ℕ) → length text < pipe_buf → IsWhole text
unfolding atomic_printf
short-IsWhole text h = ap (λ bs. (bs, pos (length text))) (take_short 4095 text (omega arith))

pub length-op_type_str : (t : OpType) (name : List ℕ) → op_type_str t ≡ some name → length name ≤ 8
unfolding op_type_str
length-op_type_str create_account name e = ground arith
length-op_type_str balance name e = ground arith
length-op_type_str transfer name e = ground arith
length-op_type_str shutdown name e = ground arith
length-op_type_str (other n) name e = cc

pub length-rc_str : (c : RetCode) → length (rc_str c) ≤ 12
unfolding rc_str
length-rc_str rc_ok = omega arith
length-rc_str rc_srv_down = omega arith
length-rc_str rc_srv_timeout = omega arith
length-rc_str rc_usr_down = omega arith
length-rc_str rc_login_fail = omega arith
length-rc_str rc_op_nallow = omega arith
length-rc_str rc_id_in_use = omega arith
length-rc_str rc_id_not_found = omega arith
length-rc_str rc_same_id = omega arith
length-rc_str rc_no_funds = omega arith
length-rc_str rc_too_high = omega arith
length-rc_str rc_other = omega arith

pub length-sync_mech_str : (o : SyncMechOp) → length (sync_mech_str o) ≤ 13
unfolding sync_mech_str
length-sync_mech_str op_mutex_lock = omega arith
length-sync_mech_str op_mutex_trylock = omega arith
length-sync_mech_str op_mutex_unlock = omega arith
length-sync_mech_str op_cond_signal = omega arith
length-sync_mech_str op_cond_wait = omega arith
length-sync_mech_str op_sem_init = omega arith
length-sync_mech_str op_sem_post = omega arith
length-sync_mech_str op_sem_wait = omega arith

request_parts_length :
    (own id : ℤ) (r : TlvRequest) (name : List ℕ)
    → length r.value.header.password ≤ max_password_len
    → length name ≤ 8
    → length (joined (request_parts own id r name)) ≤ 160
unfolding request_parts
request_parts_length own id r name h k = omega (
  arith,
  length-joined (request_parts own id r name),
  length-zero_padded_le 5 id,
  length-right 3 (sprintf_d (to_int r.length)),
  length-sprintf_d (to_int r.length),
  length-zero_padded_le 5 r.value.header.pid,
  length-zero_padded_le 4 (to_int r.value.header.account_id),
  length-copies
      ((max_password_len - length r.value.header.password)
        + (length r.value.header.password - max_password_len))
      32,
  length-right 5 (unsigned r.value.header.op_delay_ms),
  length-unsigned r.value.header.op_delay_ms,
  length-left 8 name,
)

reply_parts_length :
    (own id : ℤ) (r : TlvReply) (name : List ℕ)
    → length name ≤ 8
    → length (joined (reply_parts own id r name)) ≤ 160
unfolding reply_parts
reply_parts_length own id r name k = omega (
  arith,
  length-joined (reply_parts own id r name),
  length-zero_padded_le 5 id,
  length-right 3 (sprintf_d (to_int r.length)),
  length-sprintf_d (to_int r.length),
  length-zero_padded_le 4 (to_int r.value.header.account_id),
  length-right 8 name,
  length-right 12 (rc_str r.value.header.ret_code),
  length-rc_str r.value.header.ret_code,
)

-- The bases are not cut.
pub base_request_info_whole :
    (own id : ℤ) (r : TlvRequest) (name : List ℕ)
    → length r.value.header.password ≤ max_password_len
    → length name ≤ 8
    → base_request_info own id r name ≡ joined (request_parts own id r name)
unfolding base_request_info
base_request_info_whole own id r name h k =
    take_short 4095 (joined (request_parts own id r name))
      (omega (arith, request_parts_length own id r name h k))

pub base_reply_info_whole :
    (own id : ℤ) (r : TlvReply) (name : List ℕ)
    → length name ≤ 8
    → base_reply_info own id r name ≡ joined (reply_parts own id r name)
unfolding base_reply_info
base_reply_info_whole own id r name k =
    take_short 4095 (joined (reply_parts own id r name))
      (omega (arith, reply_parts_length own id r name k))

request_tail_length :
    (t : OpType) (r : TlvRequest)
    → length r.value.text ≤ max_password_len
    → total (request_tail t r) ≤ 100
unfolding request_tail
request_tail_length create_account r h = omega (
  arith,
  length-zero_padded_le 4 (to_int r.value.word0),
  length-right 10 (unsigned r.value.word1),
  length-unsigned r.value.word1,
)
request_tail_length balance r h = omega arith
request_tail_length transfer r h = omega (
  arith,
  length-zero_padded_le 4 (to_int r.value.word0),
  length-right 10 (unsigned r.value.word1),
  length-unsigned r.value.word1,
)
request_tail_length shutdown r h = omega arith
request_tail_length (other n) r h = omega arith

reply_tail_length : (t : OpType) (r : TlvReply) → total (reply_tail t r) ≤ 100
unfolding reply_tail
reply_tail_length create_account r = omega arith
reply_tail_length balance r = omega (
  arith,
  length-right 10 (sprintf_d (to_int r.value.word)),
  length-sprintf_d (to_int r.value.word),
)
reply_tail_length transfer r = omega (
  arith,
  length-right 10 (sprintf_d (to_int r.value.word)),
  length-sprintf_d (to_int r.value.word),
)
reply_tail_length shutdown r = omega (arith, length-sprintf_d (to_int r.value.word))
reply_tail_length (other n) r = omega arith

-- A line with a text that `atomicPrintf` writes whole.
abbrev pub Written : ℤ → Line → Type 0
Written own l = (text : List ℕ) × (line_text own l ≡ some text) × IsWhole text

pub short-Written :
    (own : ℤ) (l : Line) (ps : List (List ℕ))
    → line_text own l ≡ some (joined ps)
    → total ps < pipe_buf
    → Written own l
short-Written own l ps e h =
    (joined ps, e, short-IsWhole (joined ps) (omega (arith, length-joined ps)))

pub request-Written :
    (own id : ℤ) (r : TlvRequest) (name : List ℕ)
    → op_type_str r.type ≡ some name
    → length r.value.header.password ≤ max_password_len
    → length r.value.text ≤ max_password_len
    → Written own (request id r)
unfolding line_text request_text
request-Written own id r name e h k =
    let base = base_request_info own id r name in
    let short = length-op_type_str r.type name e in
    short-Written own (request id r) (base ∷ request_tail r.type r)
      (ap (named (λ n. joined (base_request_info own id r n ∷ request_tail r.type r))) e)
      (omega (
        arith,
        ap length (base_request_info_whole own id r name h short),
        request_parts_length own id r name h short,
        request_tail_length r.type r k,
      ))

pub reply-Written :
    (own id : ℤ) (r : TlvReply) (name : List ℕ)
    → op_type_str r.type ≡ some name
    → Written own (reply id r)
unfolding line_text reply_text
reply-Written own id r name e =
    let base = base_reply_info own id r name in
    let short = length-op_type_str r.type name e in
    short-Written own (reply id r) (base ∷ reply_tail r.type r)
      (ap (named (λ n. joined (base_reply_info own id r n ∷ reply_tail r.type r))) e)
      (omega (
        arith,
        ap length (base_reply_info_whole own id r name short),
        reply_parts_length own id r name short,
        reply_tail_length r.type r,
      ))
