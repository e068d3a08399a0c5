-- ===== src/Shared/Protocol/Bytes.antt =====
-- `write_request` and `read_request` of shared/com_protocol.c: a request as the bytes of its packed
-- record, numbers with the low byte first. The bytes of an array behind the end of its string are
-- zero, as in the user's global request. `none` is undefined behaviour.
use home_banking_system.Base.{
  ℕ, zero, suc, ◌+◌, ◌*◌, ◌/◌, ◌%◌, Bool, ◌&&◌, not, Option, none, some, List, [], ◌∷◌, ◌++◌, ltb,
  ◌==◌, if◌then◌else◌, length, take,
}
use home_banking_system.Base.Int.{ℤ, pos, negsuc, to_int, eqb_ℤ, ltb_ℤ}
use home_banking_system.Base.Options.{◌>>=◌}
use home_banking_system.Types.{
  OpType, create_account, balance, transfer, shutdown, other, ReqHeader, ReqValue, TlvRequest,
}
use home_banking_system.Os.Run.{sized}
use home_banking_system.Shared.Crypto.{c_string, read_into}
use home_banking_system.Shared.Protocol.Request.{of_int}

unfoldable pub not_positive : ℤ → Bool
not_positive z = not (ltb_ℤ (pos 0) z)

abbrev pub drop : ℕ → List ℕ → List ℕ
drop zero bs = bs
drop (suc n) [] = []
drop (suc n) (b ∷ bs) = drop n bs

unfoldable pub le32 : ℕ → List ℕ
le32 n = n % 256 ∷ n / 256 % 256 ∷ n / 65536 % 256 ∷ n / 16777216 % 256 ∷ []

unfoldable pub word_of : List ℕ → ℕ
word_of (a ∷ b ∷ c ∷ d ∷ bs) = a + b * 256 + c * 65536 + d * 16777216
word_of _ = 0

unfoldable pub number_of : OpType → ℕ
number_of create_account = 0
number_of balance = 1
number_of transfer = 2
number_of shutdown = 3
number_of (other n) = n

unfoldable pub type_of : ℕ → OpType
type_of n =
    if n == 0
    then create_account
    else if n == 1
    then balance
    else if n == 2
    then transfer
    else if n == 3
    then shutdown
    else other n

-- The 62 bytes of a value, and the value that they are.
unfoldable pub value_bytes : ReqValue → List ℕ
unfolding le32
value_bytes v =
    le32 (of_int v.header.pid)
    ++ (le32 v.header.account_id
        ++ (sized 21 v.header.password
            ++ (le32 v.header.op_delay_ms ++ (le32 v.word0 ++ (le32 v.word1 ++ sized 21 v.text)))))

unfoldable pub value_of_bytes : List ℕ → ReqValue
unfolding word_of
value_of_bytes m =
    let header : ReqHeader = record {
      pid = to_int (word_of m);
      account_id = word_of (drop 4 m);
      password = c_string (take 21 (drop 8 m));
      op_delay_ms = word_of (drop 29 m);
    } in
    record {
      header = header;
      word0 = word_of (drop 33 m);
      word1 = word_of (drop 37 m);
      text = c_string (take 21 (drop 41 m));
    }

-- The bytes that are given to `write`.
unfoldable pub request_bytes : TlvRequest → Option (List ℕ)
unfolding value_bytes number_of
request_bytes r =
    if ltb 62 r.length
    then none
    else some (le32 (number_of r.type) ++ (le32 r.length ++ take r.length (value_bytes r.value)))

-- `write` gives its result for the bytes.
unfoldable pub write_request : (List ℕ → ℤ) → TlvRequest → Option ℤ
unfolding request_bytes
write_request write r = do
  bs ← request_bytes r
  some (if eqb_ℤ (write bs) (pos (length bs)) then pos 0 else negsuc 0)

-- `read` for a number of bytes, on what it reads from: its result, the bytes, and what it leaves.
abbrev pub Read : Type 0 → Type 0
Read P = ℕ → P → ℤ × List ℕ × P

-- The last `read`, into the value.
unfoldable pub read_value : {P : Type 0} → Read P → P → TlvRequest → Option (ℤ × TlvRequest × P)
unfolding value_of_bytes value_bytes
read_value read p r =
    if ltb 62 r.length
    then none
    else let got = read r.length p in
      if not_positive got.0
      then some (got.0, r, got.2)
      else some (
        pos 0,
        record r { value = value_of_bytes (read_into (value_bytes r.value) got.1) },
        got.2,
      )

-- A type or a length of which less than four bytes came is not defined.
unfoldable pub read_request : {P : Type 0} → Read P → P → TlvRequest → Option (ℤ × TlvRequest × P)
unfolding read_value type_of
read_request read p r =
    let first = read 4 p in
    if not_positive first.0
    then some (first.0, r, first.2)
    else let second = read 4 first.2 in
      if not_positive second.0
      then some (second.0, r, second.2)
      else if (length first.1 == 4) && (length second.1 == 4)
      then read_value read second.2
          (record r { type = type_of (word_of first.1); length = word_of second.1 })
      else none
