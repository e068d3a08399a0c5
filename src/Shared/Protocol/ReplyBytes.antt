-- ===== src/Shared/Protocol/ReplyBytes.antt =====
-- `write_reply` and `read_reply` of shared/com_protocol.c: a reply as the bytes of its packed record.
-- `none` is undefined behaviour, or a return code that is none of the enumeration.
use home_banking_system.Base.{
  ℕ, ◌^◌, ◌≤◌, ◌<◌, ◌≡◌, refl, sym, subst, ap, ap₂, ◌∙◌, not, Option, none, some, List, [], ◌∷◌,
  ◌++◌, ltb, ◌==◌, if◌then◌else◌, length, take, get_elem?, arith, ◌⊎◌, inl, inr,
}
use home_banking_system.Base.Int.{ℤ, pos, negsuc, eqb_ℤ}
use home_banking_system.Base.Options.{◌>>=◌}
use home_banking_system.Types.{
  OpType, balance, transfer, shutdown, RetCode, rc_ok, rc_srv_down, rc_srv_timeout, rc_usr_down,
  rc_login_fail, rc_op_nallow, rc_id_in_use, rc_id_not_found, rc_same_id, rc_no_funds, rc_too_high,
  rc_other, code_of, RepValue, TlvReply,
}
use home_banking_system.Shared.Crypto.{read_into, overlay}
use home_banking_system.Shared.Protocol.Bytes.{
  drop, le32, word_of, number_of, type_of, Read, not_positive,
}
use home_banking_system.Shared.Protocol.Delivery.{word_of-le32}
use home_banking_system.Shared.Protocol.RoundTrip.{
  Delivers, IsType, type_of-number_of, number_of-bound,
}

unfoldable pub ret_code_of : ℕ → Option RetCode
ret_code_of n =
    get_elem?
      (rc_ok ∷ rc_srv_down ∷ rc_srv_timeout ∷ rc_usr_down ∷ rc_login_fail ∷ rc_op_nallow
        ∷ rc_id_in_use ∷ rc_id_not_found ∷ rc_same_id ∷ rc_no_funds ∷ rc_too_high ∷ rc_other ∷ [])
      n

ret_code_of-code_of : (c : RetCode) → ret_code_of (code_of c) ≡ some c
unfolding ret_code_of
ret_code_of-code_of rc_ok = refl
ret_code_of-code_of rc_srv_down = refl
ret_code_of-code_of rc_srv_timeout = refl
ret_code_of-code_of rc_usr_down = refl
ret_code_of-code_of rc_login_fail = refl
ret_code_of-code_of rc_op_nallow = refl
ret_code_of-code_of rc_id_in_use = refl
ret_code_of-code_of rc_id_not_found = refl
ret_code_of-code_of rc_same_id = refl
ret_code_of-code_of rc_no_funds = refl
ret_code_of-code_of rc_too_high = refl
ret_code_of-code_of rc_other = refl

-- The 12 bytes of a value, and the value that they are.
unfoldable pub rep_value_bytes : RepValue → List ℕ
unfolding le32
rep_value_bytes v = le32 v.header.account_id ++ (le32 (code_of v.header.ret_code) ++ le32 v.word)

unfoldable pub rep_value_of_bytes : List ℕ → Option RepValue
unfolding word_of ret_code_of
rep_value_of_bytes m = do
  code ← ret_code_of (word_of (drop 4 m))
  some (record {
    header = record { account_id = word_of m; ret_code = code };
    word = word_of (drop 8 m);
  })

-- The bytes that are given to `write`.
unfoldable pub reply_bytes : TlvReply → Option (List ℕ)
unfolding rep_value_bytes number_of
reply_bytes r =
    if ltb 12 r.length
    then none
    else some
        (le32 (number_of r.type) ++ (le32 r.length ++ take r.length (rep_value_bytes r.value)))

-- `write` gives its result for the bytes.
unfoldable pub write_reply : (List ℕ → ℤ) → TlvReply → Option ℤ
unfolding reply_bytes
write_reply write r = do
  bs ← reply_bytes r
  some (if eqb_ℤ (write bs) (pos (length bs)) then pos 0 else negsuc 0)

-- The last `read`, into the value.
unfoldable pub read_rep_value : {P : Type 0} → Read P → P → TlvReply → Option (ℤ × TlvReply × P)
unfolding rep_value_of_bytes rep_value_bytes
read_rep_value read p r =
    if ltb 12 r.length
    then none
    else let got = read r.length p in
      if not_positive got.0 then some (negsuc 0, r, got.2) else do
        v ← rep_value_of_bytes (read_into (rep_value_bytes r.value) got.1)
        some (pos 0, record r { value = v }, got.2)

-- A type or a length of which less than four bytes came is not defined.
unfoldable pub read_reply : {P : Type 0} → Read P → P → TlvReply → Option (ℤ × TlvReply × P)
unfolding read_rep_value type_of
read_reply read p r =
    let first = read 4 p in
    if not_positive first.0
    then some (negsuc 0, r, first.2)
    else if not (length first.1 == 4)
    then none
    else let r1 = record r { type = type_of (word_of first.1) } in
      let second = read 4 first.2 in
      if not_positive second.0
      then some (negsuc 0, r1, second.2)
      else if not (length second.1 == 4)
      then none
      else read_rep_value read second.2 (record r1 { length = word_of second.1 })

-- The size that `init_reply` gives to a reply.
unfoldable pub reply_size : OpType → RetCode → ℕ
reply_size transfer code = 12
reply_size balance rc_ok = 12
reply_size shutdown rc_ok = 12
reply_size type code = 8

reply_size-cases :
    (type : OpType) (code : RetCode) → (reply_size type code ≡ 8) ⊎ (reply_size type code ≡ 12)
unfolding reply_size
reply_size-cases type code = ground arith

code_of-bound : (c : RetCode) → code_of c < 2 ^ 32
code_of-bound c = ground arith

-- The memory after the first 8 or all 12 bytes of `v` are read over `w`.
memory_lem :
    (v w : RepValue) (n : ℕ)
    → (n ≡ 8) ⊎ (n ≡ 12)
    → read_into (rep_value_bytes w) (take n (rep_value_bytes v))
      ≡ rep_value_bytes (record { header = v.header; word = if n == 12 then v.word else w.word })
unfolding rep_value_bytes le32 read_into overlay
memory_lem v w n (inl e) = rw e refl
memory_lem v w n (inr e) = rw e refl

decode_lem :
    (v : RepValue)
    → v.header.account_id < 2 ^ 32
    → rep_value_of_bytes (rep_value_bytes v)
      ≡ some (record { header = v.header; word = word_of (le32 v.word) })
unfolding rep_value_of_bytes rep_value_bytes le32
decode_lem v fits =
    let id_is : word_of (rep_value_bytes v) ≡ v.header.account_id =
      word_of-le32 v.header.account_id (le32 (code_of v.header.ret_code) ++ le32 v.word) fits in
    let code_is : ret_code_of (word_of (drop 4 (rep_value_bytes v))) ≡ some v.header.ret_code =
      ap ret_code_of
        (word_of-le32 (code_of v.header.ret_code) (le32 v.word) (code_of-bound v.header.ret_code))
      ∙ ret_code_of-code_of v.header.ret_code in
    rw (code_is, id_is) refl

-- The value that comes of reading the first `n` bytes of `v` over `w`.
abbrev pub read_over : ℕ → RepValue → RepValue → RepValue
read_over n v w = record {
  header = v.header;
  word = word_of (le32 (if n == 12 then v.word else w.word));
}

value_lem :
    (v w : RepValue) (n : ℕ)
    → (n ≡ 8) ⊎ (n ≡ 12)
    → v.header.account_id < 2 ^ 32
    → rep_value_of_bytes (read_into (rep_value_bytes w) (take n (rep_value_bytes v)))
      ≡ some (read_over n v w)
value_lem v w n size fits =
    ap rep_value_of_bytes (memory_lem v w n size)
    ∙ decode_lem (record { header = v.header; word = if n == 12 then v.word else w.word }) fits

length-take_value :
    (v : RepValue) (n : ℕ) → (n ≡ 8) ⊎ (n ≡ 12) → n ≡ length (take n (rep_value_bytes v))
unfolding rep_value_bytes le32
length-take_value v n (inl e) = rw e refl
length-take_value v n (inr e) = rw e refl

read_rep_value_step :
    (read : Read (List ℕ)) (r : TlvReply) (p bs rest : List ℕ) (v : RepValue)
    → (r.length ≡ 8) ⊎ (r.length ≡ 12)
    → read r.length p ≡ (pos r.length, bs, rest)
    → rep_value_of_bytes (read_into (rep_value_bytes r.value) bs) ≡ some v
    → read_rep_value read p r ≡ some (pos 0, record r { value = v }, rest)
unfolding read_rep_value not_positive
read_rep_value_step read r p bs rest v size got is = ground (arith, got, is)

read_reply_step :
    (read : Read (List ℕ)) (old : TlvReply) (p p' p'' : List ℕ) (t n : ℕ)
    → read 4 p ≡ (pos 4, le32 t, p')
    → read 4 p' ≡ (pos 4, le32 n, p'')
    → read_reply read p old
      ≡ read_rep_value read p''
          (record old { type = type_of (word_of (le32 t)); length = word_of (le32 n) })
unfolding read_reply not_positive le32
read_reply_step read old p p' p'' t n first second = ground (arith, first, second)

pub reply_bytes_lem :
    (r : TlvReply)
    → r.length ≤ 12
    → reply_bytes r
      ≡ some (le32 (number_of r.type) ++ (le32 r.length ++ take r.length (rep_value_bytes r.value)))
unfolding reply_bytes
reply_bytes_lem r fits = ground arith

-- A reply with the size that `init_reply` gives to its type and code, and numbers that fit into four
-- bytes, is written as bytes; and `read_reply`, on those bytes followed by others and into any
-- memory, if `read` gives written bytes when enough are there, returns 0, leaves exactly the others,
-- and puts the type, the length and the header into the reply, and the word if it was sent.
pub read_reply-reply_bytes :
    (read : Read (List ℕ)) (r old : TlvReply) (rest : List ℕ)
    → Delivers read
    → IsType r.type
    → r.length ≡ reply_size r.type r.value.header.ret_code
    → r.value.header.account_id < 2 ^ 32
    → r.value.word < 2 ^ 32
    → (bs : List ℕ) × (r' : TlvReply) × (reply_bytes r ≡ some bs)
      × (read_reply read (bs ++ rest) old ≡ some (pos 0, r', rest))
      × (r'.type ≡ r.type)
      × (r'.length ≡ r.length)
      × (r'.value.header ≡ r.value.header)
      × ((r.length ≡ 12) → r'.value.word ≡ r.value.word)
unfolding le32
read_reply-reply_bytes read r old rest delivers known size id_fits word_fits =
    let sizes : (r.length ≡ 8) ⊎ (r.length ≡ 12) =
      subst (λ n. (n ≡ 8) ⊎ (n ≡ 12)) (sym size)
        (reply_size-cases r.type r.value.header.ret_code) in
    let t = number_of r.type in
    let bytes = take r.length (rep_value_bytes r.value) in
    let got : read r.length (bytes ++ rest) ≡ (pos r.length, bytes, rest) =
      delivers r.length bytes rest (length-take_value r.value r.length sizes) (omega arith) in
    let r1 : TlvReply = record old { type = r.type; length = r.length } in
    let v = read_over r.length r.value old.value in
    let runs =
      read_rep_value_step read r1 (bytes ++ rest) bytes rest v sizes got
        (value_lem r.value old.value r.length sizes id_fits) in
    let type_is : type_of (word_of (le32 t)) ≡ r.type =
      ap type_of (word_of-le32 t [] (number_of-bound r.type known))
      ∙ type_of-number_of r.type known in
    let length_is : word_of (le32 r.length) ≡ r.length = word_of-le32 r.length [] (omega arith) in
    (
      le32 t ++ (le32 r.length ++ bytes),
      record r1 { value = v },
      reply_bytes_lem r (omega arith),
      read_reply_step read old (le32 t ++ (le32 r.length ++ (bytes ++ rest)))
            (le32 r.length ++ (bytes ++ rest)) (bytes ++ rest) t r.length
            (delivers 4 (le32 t) (le32 r.length ++ (bytes ++ rest)) refl (omega arith))
            (delivers 4 (le32 r.length) (bytes ++ rest) refl (omega arith))
          ∙ ap₂ (λ y n. read_rep_value read (bytes ++ rest) (record old { type = y; length = n }))
              type_is length_is
          ∙ runs,
      refl,
      refl,
      refl,
      λ e. rw e (word_of-le32 r.value.word [] word_fits),
    )
