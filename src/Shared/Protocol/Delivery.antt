-- ===== src/Shared/Protocol/Delivery.antt =====
-- The parts of a request's bytes, taken apart (shared/com_protocol.c).
use home_banking_system.Base.{
  ℕ, zero, suc, ◌+◌, ◌^◌, ◌≤◌, ◌<◌, ◌≡◌, ◌≢◌, refl, ap, ◌∙◌, some, List, [], ◌∷◌, ◌++◌, length,
  take, arith, append-nil, append_assoc,
}
use home_banking_system.Base.Int.{ℤ, to_int}
use home_banking_system.Types.{ReqHeader, ReqValue}
use home_banking_system.Os.Run.{sized, length-sized}
use home_banking_system.Shared.Crypto.{c_string, read_into, overlay}
use home_banking_system.Shared.Protocol.Request.{of_int}
use home_banking_system.Shared.Protocol.Bytes.{drop, le32, word_of, value_of_bytes}

pub word_of-le32 : (n : ℕ) (bs : List ℕ) → n < 2 ^ 32 → word_of (le32 n ++ bs) ≡ n
unfolding word_of le32
word_of-le32 n bs h = omega arith

pub take_more : (xs ys : List ℕ) (k n : ℕ) → k ≡ length xs + n → take k (xs ++ ys) ≡ xs ++ take n ys
take_more [] ys k n e = let e' : k ≡ n = omega arith in ap (λ k. take k ys) e'
take_more (x ∷ xs) ys zero n e = absurd (omega arith)
take_more (x ∷ xs) ys (suc k) n e = ap (λ zs. x ∷ zs) (take_more xs ys k n (omega arith))

pub drop_more : (xs ys : List ℕ) (k n : ℕ) → k ≡ length xs + n → drop k (xs ++ ys) ≡ drop n ys
drop_more [] ys k n e = let e' : k ≡ n = omega arith in ap (λ k. drop k ys) e'
drop_more (x ∷ xs) ys zero n e = absurd (omega arith)
drop_more (x ∷ xs) ys (suc k) n e = drop_more xs ys k n (omega arith)

overlay-append :
    (m bs : List ℕ) → length bs ≤ length m → overlay m bs ≡ some (bs ++ drop (length bs) m)
unfolding overlay
overlay-append m [] h = refl
overlay-append [] (b ∷ bs) h = absurd (omega arith)
overlay-append (x ∷ m) (b ∷ bs) h = rw (overlay-append m bs (omega arith)) refl

pub read_into-append :
    (m bs : List ℕ) → length bs ≤ length m → read_into m bs ≡ bs ++ drop (length bs) m
unfolding read_into
read_into-append m bs h = rw (overlay-append m bs h, read_into) refl

-- No byte of a string is its end.
abbrev pub NoNul : List ℕ → Type 0
NoNul [] = Unit
NoNul (b ∷ bs) = (b ≢ 0) × NoNul bs

c_string-sized : (n : ℕ) (bs : List ℕ) → length bs < n → NoNul bs → c_string (sized n bs) ≡ bs
unfolding c_string
c_string-sized zero bs h good = absurd (omega arith)
c_string-sized (suc n) [] h good = refl
c_string-sized (suc n) (b ∷ bs) h (live, good) =
    ground (arith, c_string-sized n bs (omega arith) good)

c_string-array : (t u : List ℕ) → length t < 21 → NoNul t → c_string (take 21 (sized 21 t ++ u)) ≡ t
c_string-array t u h good =
    ap c_string
      (take_more (sized 21 t) u 21 0 (omega (arith, length-sized 21 t)) ∙ append-nil (sized 21 t))
    ∙ c_string-sized 21 t h good

-- The header's 33 bytes before other bytes.
abbrev pub header_then : ReqHeader → List ℕ → List ℕ
header_then x tail =
    le32 (of_int x.pid)
    ++ (le32 x.account_id ++ (sized 21 x.password ++ (le32 x.op_delay_ms ++ tail)))

pub header_then-append :
    (x : ReqHeader) (t u : List ℕ) → header_then x t ++ u ≡ header_then x (t ++ u)
unfolding le32
header_then-append x t u =
    ap (λ bs. le32 (of_int x.pid) ++ (le32 x.account_id ++ bs))
      (append_assoc (sized 21 x.password) (le32 x.op_delay_ms ++ t) u)

pub take-header_then :
    (x : ReqHeader) (t : List ℕ) (n : ℕ)
    → take (suc (suc (suc (suc (suc (suc (suc (suc (25 + n))))))))) (header_then x t)
      ≡ header_then x (take n t)
unfolding le32
take-header_then x t n =
    ap (λ bs. le32 (of_int x.pid) ++ (le32 x.account_id ++ bs))
      (take_more (sized 21 x.password) (le32 x.op_delay_ms ++ t) (25 + n) (suc (suc (suc (suc n))))
        (omega (arith, length-sized 21 x.password)))

-- The numbers fit into four bytes, and the strings into their arrays.
pub record IsPacked (v : ReqValue) : Type 0 where
  pub pid : to_int (of_int v.header.pid) ≡ v.header.pid
  pub account_id : v.header.account_id < 2 ^ 32
  pub op_delay_ms : v.header.op_delay_ms < 2 ^ 32
  pub password : (length v.header.password < 21) × NoNul v.header.password
  pub word0 : v.word0 < 2 ^ 32
  pub word1 : v.word1 < 2 ^ 32
  pub text : (length v.text < 21) × NoNul v.text

pub of_int-bound : (z : ℤ) → of_int z < 2 ^ 32
unfolding of_int
of_int-bound z = ground arith

pub header_lem :
    (v : ReqValue) (t : List ℕ)
    → IsPacked v
    → (value_of_bytes (header_then v.header t)).header ≡ v.header
unfolding value_of_bytes le32 word_of
header_lem v t q =
    let x = v.header in
    let rest = le32 x.op_delay_ms ++ t in
    let pid = ap to_int (word_of-le32 (of_int x.pid) [] (of_int-bound x.pid)) ∙ q.pid in
    let account_id = word_of-le32 x.account_id [] q.account_id in
    let password = c_string-array x.password rest (q.password.0) (q.password.1) in
    let op_delay_ms =
      ap word_of
        (drop_more (sized 21 x.password) rest 21 0 (omega (arith, length-sized 21 x.password)))
      ∙ word_of-le32 x.op_delay_ms t q.op_delay_ms in
    λ i. record {
      pid = pid i;
      account_id = account_id i;
      password = password i;
      op_delay_ms = op_delay_ms i;
    }

drop-header_then :
    (x : ReqHeader) (t : List ℕ)
    → (drop 33 (header_then x t) ≡ t)
      × (drop 37 (header_then x t) ≡ drop 4 t)
      × (drop 41 (header_then x t) ≡ drop 8 t)
unfolding le32
drop-header_then x t =
    let rest = le32 x.op_delay_ms ++ t in
    let more = λ (k n : ℕ) (e : k ≡ 21 + n).
      drop_more (sized 21 x.password) rest k n (omega (arith, length-sized 21 x.password, e)) in
    (more 25 4 (omega arith), more 29 8 (omega arith), more 33 12 (omega arith))

-- The words and the text that stand behind the header.
pub body_lem :
    (v : ReqValue) (u : List ℕ)
    → IsPacked v
    → ((value_of_bytes (header_then v.header (le32 v.word0 ++ (le32 v.word1 ++ u)))).word0
        ≡ v.word0)
      × ((value_of_bytes (header_then v.header (le32 v.word0 ++ (le32 v.word1 ++ u)))).word1
          ≡ v.word1)
unfolding value_of_bytes le32 word_of
body_lem v u q =
    let t = le32 v.word0 ++ (le32 v.word1 ++ u) in
    let (at33, at37, at41) = drop-header_then v.header t in
    (
      ap word_of at33 ∙ word_of-le32 v.word0 (le32 v.word1 ++ u) q.word0,
      ap word_of at37 ∙ word_of-le32 v.word1 u q.word1,
    )

pub text_lem :
    (v : ReqValue) (u : List ℕ)
    → IsPacked v
    → (value_of_bytes
        (header_then v.header (le32 v.word0 ++ (le32 v.word1 ++ (sized 21 v.text ++ u))))).text
      ≡ v.text
unfolding value_of_bytes le32 word_of
text_lem v u q =
    let t = le32 v.word0 ++ (le32 v.word1 ++ (sized 21 v.text ++ u)) in
    let (at33, at37, at41) = drop-header_then v.header t in
    ap (λ bs. c_string (take 21 bs)) at41 ∙ c_string-array v.text u (q.text.0) (q.text.1)
