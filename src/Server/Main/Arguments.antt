-- ===== src/Server/Main/Arguments.antt =====
-- Which of the server's arguments are accepted (server_f/server.c).
use home_banking_system.Base.{
  ℕ, ◌%◌, ◌^◌, ◌≡◌, ap, false, ◌&&◌, Option, none, some, List, [], ◌∷◌, leb, if◌then◌else◌, length,
  arith,
}
use home_banking_system.Base.Int.{ℤ, pos, negsuc, to_int}
use home_banking_system.Types.{max_bank_offices, min_password_len, max_password_len}
use home_banking_system.Shared.Accounts.{valid_pwd}
use home_banking_system.Shared.Protocol.FifoName.{sprintf_d}
use home_banking_system.Shared.Utilities.{strtol, signed, skip_space}
use home_banking_system.Shared.Utilities.ReadBack.{InRange, sign_of, value_of, signed-sprintf_d}
use home_banking_system.Server.Parse.{valid_args}
use home_banking_system.Server.Main.{parse_args, check_args, out_of_range}

-- What the server takes: from 1 to 99 offices, and a password of 8 to 20 bytes.
abbrev pub accepted : ℤ → List ℕ → Option (ℕ × List ℕ)
accepted (pos n) pwd =
    if leb 1 n
      && leb n max_bank_offices
      && (leb min_password_len (length pwd) && leb (length pwd) max_password_len)
    then some (n, pwd)
    else none
accepted (negsuc n) pwd = none

-- `strtol` on a string that is all number.
abbrev IsRead : List ℕ → ℤ → Type 0
IsRead s z = signed s (skip_space s) ≡ (sign_of z, value_of z, [])

in_range : (s : List ℕ) (z : ℤ) → InRange z → IsRead s z → out_of_range s ≡ false
unfolding out_of_range
in_range s (pos n) small e = rw (out_of_range, e) (ground arith)
in_range s (negsuc n) small e = rw (out_of_range, e) (ground arith)

read_all : (s : List ℕ) (z : ℤ) → IsRead s z → (strtol s).1 ≡ []
unfolding strtol
read_all s z e = ap (λ t. t.2) e

read_int : (s : List ℕ) (z : ℤ) → InRange z → IsRead s z → to_int ((strtol s).0 % 2 ^ 32) ≡ z
unfolding strtol
read_int s (pos n) small e = rw (strtol, e) (ground arith)
read_int s (negsuc n) small e = rw (strtol, e) (ground arith)

check_args_lem : (z : ℤ) (pwd : List ℕ) → check_args false z [] pwd ≡ accepted z pwd
unfolding check_args valid_args valid_pwd
check_args_lem (pos n) pwd = ground arith
check_args_lem (negsuc n) pwd = ground arith

-- For every `int`, printed with "%d" as the first of two arguments, and any password: `main` goes on
-- past its checks, with this number of offices and this password, if the number is from 1 to 99 and
-- the password has 8 to 20 bytes, and otherwise it does not go on.
pub parse_args-sprintf_d :
    (z : ℤ) (pwd : List ℕ) → InRange z → parse_args (sprintf_d z ∷ pwd ∷ []) ≡ accepted z pwd
unfolding parse_args
parse_args-sprintf_d z pwd h =
    let e = signed-sprintf_d z h in
    let s = sprintf_d z in
    rw (in_range s z h e, read_int s z h e, read_all s z e) (check_args_lem z pwd)
