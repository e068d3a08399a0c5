-- ===== src/Shared/Protocol/RoundTrip.antt =====
-- What `read_request` makes of the bytes that `write_request` wrote.
use home_banking_system.Base.{
  ℕ, zero, suc, ◌^◌, ◌≤◌, ◌<◌, ◌≡◌, refl, sym, subst, ap, ap₂, ◌∙◌, some, List, [], ◌∷◌, ◌++◌,
  length, take, arith, length-append,
}
use home_banking_system.Base.Int.{pos}
use home_banking_system.Types.{
  OpType, create_account, balance, transfer, shutdown, other, ReqValue, TlvRequest,
}
use home_banking_system.Os.Run.{sized, length-sized}
use home_banking_system.Shared.Crypto.{read_into}
use home_banking_system.Shared.Protocol.Bytes.{
  drop, le32, word_of, number_of, type_of, value_bytes, value_of_bytes, request_bytes, read_value,
  read_request, Read, not_positive,
}
use home_banking_system.Shared.Protocol.Delivery.{
  IsPacked, word_of-le32, read_into-append, header_then, header_then-append, take-header_then,
  header_lem, body_lem, text_lem,
}

-- The length that `init_request` gives to a request of a type.
abbrev pub size_for : OpType → ℕ
size_for create_account = 62
size_for transfer = 41
size_for _ = 33

-- What a reader sees of a value: the header, and the fields that the type has.
abbrev pub SameFor : OpType → ReqValue → ReqValue → Type 0
SameFor create_account v w =
    (w.header ≡ v.header) × (w.word0 ≡ v.word0) × (w.word1 ≡ v.word1) × (w.text ≡ v.text)
SameFor transfer v w = (w.header ≡ v.header) × (w.word0 ≡ v.word0) × (w.word1 ≡ v.word1)
SameFor _ v w = w.header ≡ v.header

length-take_le : (n : ℕ) (xs : List ℕ) → n ≤ length xs → length (take n xs) ≡ n
length-take_le zero xs h = refl
length-take_le (suc n) [] h = absurd (omega arith)
length-take_le (suc n) (x ∷ xs) h = omega (arith, length-take_le n xs (omega arith))

take_all : (n : ℕ) (xs : List ℕ) → n ≡ length xs → take n xs ≡ xs
take_all zero [] h = refl
take_all zero (x ∷ xs) h = absurd (omega arith)
take_all (suc n) [] h = absurd (omega arith)
take_all (suc n) (x ∷ xs) h = ap (λ ys. x ∷ ys) (take_all n xs (omega arith))

-- The bytes of the union.
abbrev union_bytes : ReqValue → List ℕ
union_bytes v = le32 v.word0 ++ (le32 v.word1 ++ sized 21 v.text)

value_bytes_lem : (v : ReqValue) → value_bytes v ≡ header_then v.header (union_bytes v)
unfolding value_bytes
value_bytes_lem v = refl

length-value_bytes : (v : ReqValue) → length (value_bytes v) ≡ 62
unfolding value_bytes le32
length-value_bytes v = omega (
  arith,
  length-append (sized 21 v.header.password) (le32 v.header.op_delay_ms ++ union_bytes v),
  length-sized 21 v.header.password,
  length-sized 21 v.text,
)

-- The memory after a value's first bytes are read over the value `w`.
memory_lem :
    (v w : ReqValue) (n : ℕ)
    → n ≤ 62
    → (u : List ℕ) × (read_into (value_bytes w) (take n (value_bytes v))
        ≡ take n (value_bytes v) ++ u)
memory_lem v w n h = (
  drop (length (take n (value_bytes v))) (value_bytes w),
  read_into-append (value_bytes w) (take n (value_bytes v)) (
      omega (
        arith,
        length-value_bytes v,
        length-value_bytes w,
        length-take_le n (value_bytes v) (omega (arith, length-value_bytes v)),
      )),
)

short_lem :
    (v : ReqValue) (u : List ℕ)
    → IsPacked v
    → (value_of_bytes (take 33 (value_bytes v) ++ u)).header ≡ v.header
unfolding value_bytes
short_lem v u q =
    ap (λ bs. (value_of_bytes (bs ++ u)).header) (take-header_then v.header (union_bytes v) 0)
    ∙ ap (λ bs. (value_of_bytes bs).header) (header_then-append v.header [] u)
    ∙ header_lem v u q

transfer_lem :
    (v : ReqValue) (u : List ℕ)
    → IsPacked v
    → SameFor transfer v (value_of_bytes (take 41 (value_bytes v) ++ u))
unfolding value_bytes le32
transfer_lem v u q =
    let t = le32 v.word0 ++ (le32 v.word1 ++ u) in
    let e : take 41 (value_bytes v) ++ u ≡ header_then v.header t =
      ap (λ bs. bs ++ u) (take-header_then v.header (union_bytes v) 8)
      ∙ header_then-append v.header (le32 v.word0 ++ (le32 v.word1 ++ [])) u in
    let (w0, w1) = body_lem v u q in
    subst (λ m. SameFor transfer v (value_of_bytes m)) (sym e) (header_lem v t q, w0, w1)

create_lem :
    (v : ReqValue) (u : List ℕ)
    → IsPacked v
    → SameFor create_account v (value_of_bytes (take 62 (value_bytes v) ++ u))
unfolding value_bytes le32
create_lem v u q =
    let t = le32 v.word0 ++ (le32 v.word1 ++ (sized 21 v.text ++ u)) in
    let e : take 62 (value_bytes v) ++ u ≡ header_then v.header t =
      ap (λ bs. bs ++ u) (take_all 62 (value_bytes v) (sym (length-value_bytes v)))
      ∙ header_then-append v.header (union_bytes v) u in
    let (w0, w1) = body_lem v (sized 21 v.text ++ u) q in
    subst (λ m. SameFor create_account v (value_of_bytes m)) (sym e)
      (header_lem v t q, w0, w1, text_lem v u q)

same_lem :
    (type : OpType) (v : ReqValue) (u : List ℕ)
    → IsPacked v
    → SameFor type v (value_of_bytes (take (size_for type) (value_bytes v) ++ u))
same_lem create_account v u q = create_lem v u q
same_lem transfer v u q = transfer_lem v u q
same_lem balance v u q = short_lem v u q
same_lem shutdown v u q = short_lem v u q
same_lem (other n) v u q = short_lem v u q

-- One of the operations, or another number that is none of theirs.
abbrev pub IsType : OpType → Type 0
IsType (other n) = (3 < n) × (n < 2 ^ 32)
IsType _ = Unit

pub type_of-number_of : (type : OpType) → IsType type → type_of (number_of type) ≡ type
unfolding type_of number_of
type_of-number_of create_account h = refl
type_of-number_of balance h = refl
type_of-number_of transfer h = refl
type_of-number_of shutdown h = refl
type_of-number_of (other n) (lt, wide) = ground arith

pub number_of-bound : (type : OpType) → IsType type → number_of type < 2 ^ 32
unfolding number_of
number_of-bound create_account h = omega arith
number_of-bound balance h = omega arith
number_of-bound transfer h = omega arith
number_of-bound shutdown h = omega arith
number_of-bound (other n) (lt, wide) = wide

size_for-bound : (type : OpType) → (0 < size_for type) × (size_for type ≤ 62)
size_for-bound type = ground arith

-- `read` gives bytes that have been written, if that many are there.
abbrev pub Delivers : Read (List ℕ) → Type 0
Delivers read =
    (n : ℕ) (xs ys : List ℕ) → n ≡ length xs → 0 < n → read n (xs ++ ys) ≡ (pos n, xs, ys)

-- The reading of a request's bytes, followed by `rest`, into memory that holds `old`.
abbrev pub Arrives : Read (List ℕ) → TlvRequest → TlvRequest → List ℕ → List ℕ → Type 0
Arrives read r old bs rest =
    (r' : TlvRequest) × (read_request read (bs ++ rest) old ≡ some (pos 0, r', rest))
    × (r'.type ≡ r.type)
    × (r'.length ≡ r.length)
    × SameFor r.type r.value r'.value

read_value_step :
    (read : Read (List ℕ)) (r : TlvRequest) (p bs rest : List ℕ)
    → r.length ≤ 62
    → 0 < r.length
    → read r.length p ≡ (pos r.length, bs, rest)
    → read_value read p r
      ≡ some (pos 0, record r { value = value_of_bytes (read_into (value_bytes r.value) bs) }, rest)
unfolding read_value not_positive
read_value_step read r p bs rest fits some_left got = ground (arith, got)

read_request_step :
    (read : Read (List ℕ)) (old : TlvRequest) (p p' p'' : List ℕ) (t n : ℕ)
    → read 4 p ≡ (pos 4, le32 t, p')
    → read 4 p' ≡ (pos 4, le32 n, p'')
    → read_request read p old
      ≡ read_value read p''
          (record old { type = type_of (word_of (le32 t)); length = word_of (le32 n) })
unfolding read_request not_positive le32
read_request_step read old p p' p'' t n first second = ground (arith, first, second)

read_value_lem :
    (read : Read (List ℕ)) (r : TlvRequest) (v : ReqValue) (rest : List ℕ)
    → Delivers read
    → r.length ≡ size_for r.type
    → IsPacked v
    → (w : ReqValue) × (read_value read (take r.length (value_bytes v) ++ rest) r
        ≡ some (pos 0, record r { value = w }, rest))
      × SameFor r.type v w
read_value_lem read r v rest delivers size q =
    let bound = size_for-bound r.type in
    let (u, e) = memory_lem v r.value r.length (omega (arith, size, bound.1)) in
    let bytes = take r.length (value_bytes v) in
    let got : read r.length (bytes ++ rest) ≡ (pos r.length, bytes, rest) =
      delivers r.length bytes rest
        (sym (
          length-take_le r.length (value_bytes v)
            (omega (arith, size, bound.1, length-value_bytes v))))
        (omega (arith, size, bound.0)) in
    (
      value_of_bytes (bytes ++ u),
      read_value_step read r (bytes ++ rest) bytes rest (omega (arith, size, bound.1))
            (omega (arith, size, bound.0)) got
          ∙ ap (λ m. some (pos 0, record r { value = value_of_bytes m }, rest)) e,
      subst (λ n. SameFor r.type v (value_of_bytes (take n (value_bytes v) ++ u))) (sym size)
          (same_lem r.type v u q),
    )

request_bytes_lem :
    (r : TlvRequest)
    → r.length ≤ 62
    → request_bytes r
      ≡ some (le32 (number_of r.type) ++ (le32 r.length ++ take r.length (value_bytes r.value)))
unfolding request_bytes
request_bytes_lem r h = ground arith

-- A request of one of the operations (or of a number that is none of theirs), with the length that
-- `init_request` gives to its type, numbers that fit into four bytes and strings without a NUL that
-- fit into their arrays, is written as bytes; and `read_request`, on those bytes followed by others
-- and into any memory, if `read` gives written bytes when enough are there, returns 0, leaves exactly
-- the others, and puts the type, the length, the header and the fields that the type has into the
-- request.
pub read_request-request_bytes :
    (read : Read (List ℕ)) (r old : TlvRequest) (rest : List ℕ)
    → Delivers read
    → IsPacked r.value
    → IsType r.type
    → r.length ≡ size_for r.type
    → (bs : List ℕ) × (request_bytes r ≡ some bs) × Arrives read r old bs rest
unfolding le32
read_request-request_bytes read r old rest delivers q known size =
    let bound = size_for-bound r.type in
    let t = number_of r.type in
    let bytes = take r.length (value_bytes r.value) in
    let r1 : TlvRequest = record old { type = r.type; length = r.length } in
    let (w, runs, same) = read_value_lem read r1 r.value rest delivers size q in
    let type_is : type_of (word_of (le32 t)) ≡ r.type =
      ap type_of (word_of-le32 t [] (number_of-bound r.type known))
      ∙ type_of-number_of r.type known in
    let length_is : word_of (le32 r.length) ≡ r.length =
      word_of-le32 r.length [] (omega (arith, size, bound.1)) in
    (
      le32 t ++ (le32 r.length ++ bytes),
      request_bytes_lem r (omega (arith, size, bound.1)),
      (
        record r1 { value = w },
        read_request_step read old (le32 t ++ (le32 r.length ++ (bytes ++ rest)))
              (le32 r.length ++ (bytes ++ rest)) (bytes ++ rest) t r.length
              (delivers 4 (le32 t) (le32 r.length ++ (bytes ++ rest)) refl (omega arith))
              (delivers 4 (le32 r.length) (bytes ++ rest) refl (omega arith))
            ∙ ap₂ (λ y n. read_value read (bytes ++ rest) (record old { type = y; length = n }))
                type_is length_is
            ∙ runs,
        refl,
        refl,
        same,
      ),
    )
