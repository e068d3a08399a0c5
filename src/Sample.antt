-- ===== src/Sample.antt =====
-- A small bank, and the requests that the tests and the instances of theorems run on it.
use home_banking_system.Base.{◌≡◌, ◌∙◌, take, length, append-nil}
use home_banking_system.Shared.Protocol.Bytes.{drop, Read}
use home_banking_system.Shared.Protocol.Delivery.{take_more, drop_more}
use home_banking_system.Shared.Protocol.RoundTrip.{Delivers}
use home_banking_system.Base.{
  ℕ, refl, true, false, inl, inr, List, [], ◌∷◌, ◌++◌, arith, ◌==◌, if◌then◌else◌, Bool-cases,
}
use home_banking_system.Base.Int.{pos}
use home_banking_system.Types.{OpType, Account, ReqValue, empty_account_id, hash_len}
use home_banking_system.Os.Run.{Env, Sys, sized, length-sized}
use home_banking_system.Shared.Crypto.{c_string}
use home_banking_system.Shared.Crypto.Digest.{IsDigest}
use home_banking_system.Server.Requests.Checks.{AllStored}

-- A digest that keeps the first 64 bytes; every call succeeds.
abbrev pub env : Env
env = record {
  fails = λ _. false;
  number = λ n. n;
  bytes = λ _. [];
  sha256sum = λ bs. sized hash_len bs;
  garbage = record {
    type = OpType.create_account;
    length = 0;
    value = record {
      header = record { pid = pos 0; account_id = 0; password = []; op_delay_ms = 0 };
      word0 = 0;
      word1 = 0;
      text = [];
    };
  };
}

pub env-IsDigest : IsDigest env
env-IsDigest bs = length-sized hash_len bs

abbrev pub admin_pwd : List ℕ
admin_pwd = b'u' ∷ b'l' ∷ b't' ∷ b'r' ∷ b'a' ∷ b't' ∷ b'o' ∷ b'p' ∷ []

abbrev pub user_pwd : List ℕ
user_pwd = b't' ∷ b'o' ∷ b'p' ∷ b's' ∷ b'e' ∷ b'c' ∷ b'r' ∷ b't' ∷ []

abbrev pub salt : List ℕ
salt = sized 67 (b'a' ∷ b'b' ∷ [])

abbrev pub account : ℕ → List ℕ → ℕ → Account
account i pwd balance = record {
  account_id = i;
  hash = sized 64 (pwd ++ b'a' ∷ b'b' ∷ []) ++ 0 ∷ [];
  salt = salt;
  balance = balance;
}

abbrev pub empty_account : Account
empty_account = record {
  account_id = empty_account_id;
  hash = sized 65 [];
  salt = salt;
  balance = 0;
}

-- The administrator, and accounts 1 and 2.
abbrev pub bank : ℕ → Account
bank i =
    if i == 0
    then account 0 admin_pwd 0
    else if i == 1
    then account 1 user_pwd 25
    else if i == 2
    then account 2 admin_pwd 3
    else empty_account

abbrev pub start : Sys
start = record {
  accounts = bank;
  held = [];
  full_value = 0;
  empty_value = 3;
  balcony_open = true;
  active_offices = 1;
  closed = [];
  modes = [];
  log = [];
  piped = [];
  incoming = [];
  queue = [];
  written = [];
  calls = 0;
}

pub bank-AllStored : AllStored bank
unfolding c_string
bank-AllStored i lt = elim (Bool-cases (i == 0)) [
  | inl a ↦ rw a (record { hash_size = refl; salt_size = refl; salt_ends = λ _. omega arith })
  | inr a ↦ elim (Bool-cases (i == 1)) [
    | inl b ↦
        rw (a, b) (record { hash_size = refl; salt_size = refl; salt_ends = λ _. omega arith })
    | inr b ↦ elim (Bool-cases (i == 2)) [
      | inl c ↦
          rw (a, b, c) (record { hash_size = refl; salt_size = refl; salt_ends = λ _. omega arith })
      | inr c ↦
          rw (a, b, c) (record { hash_size = refl; salt_size = refl; salt_ends = λ _. omega arith })
    ]
  ]
]

-- A request by account `i`, with the two words of its arguments.
abbrev pub value : ℕ → List ℕ → ℕ → ℕ → ReqValue
value i pwd word0 word1 = record {
  header = record { pid = pos 77; account_id = i; password = pwd; op_delay_ms = 10 };
  word0 = word0;
  word1 = word1;
  text = user_pwd;
}

-- 10 from account 1 to account 2, and 30, which account 1 does not have.
abbrev pub pays : ReqValue
pays = value 1 user_pwd 2 10

abbrev pub overdraws : ReqValue
overdraws = value 1 user_pwd 2 30

-- The administrator creates account 3.
abbrev pub creates : ReqValue
creates = value 0 admin_pwd 3 500

abbrev pub asks : ReqValue
asks = value 1 user_pwd 0 0

abbrev pub closes : ReqValue
closes = value 0 admin_pwd 0 0

-- A pipe that gives what it has.
abbrev pub pipe : Read (List ℕ)
pipe n p = (pos (length (take n p)), take n p, drop n p)

pub pipe-Delivers : Delivers pipe
pipe-Delivers n xs ys e some_left =
    let taken : take n (xs ++ ys) ≡ xs = take_more xs ys n 0 (omega arith) ∙ append-nil xs in
    let left : drop n (xs ++ ys) ≡ ys = drop_more xs ys n 0 (omega arith) in
    rw (taken, left, e) refl
