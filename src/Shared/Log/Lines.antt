-- ===== src/Shared/Log/Lines.antt =====
-- All lines of shared/log.c.
use home_banking_system.Base.{
  ℕ, zero, suc, ◌+◌, ◌-◌, ◌≤◌, ◌≡◌, refl, Bool, true, false, some, List, [], ◌∷◌, length, arith,
}
use home_banking_system.Base.Int.{ℤ, to_int}
use home_banking_system.Types.{
  OpType, Account, SyncRole, role_account, salt_len, max_password_len, hash_len, width_hash,
  width_delay,
}
use home_banking_system.Os.{
  Line, request, reply, office, account_creation, sync_mech, sync_mech_sem, delay, sync_delay,
}
use home_banking_system.Shared.Protocol.Bytes.{drop}
use home_banking_system.Shared.Protocol.FifoName.{sprintf_d}
use home_banking_system.Shared.Log.Names.{op_type_str, sync_mech_str}
use home_banking_system.Shared.Log.Fields.{
  string_in, unsigned, total, right, length-right, length-left, length-zero_padded_le,
  length-sprintf_d, length-unsigned, length-unsigned_long, length-string_in,
}
use home_banking_system.Shared.Log.Text.{
  line_text, account_text, account_parts, office_parts, office_word, used_parts, delay_parts,
  sync_mech_parts, sync_mech_sem_parts, sync_delay_parts,
}
use home_banking_system.Shared.Log.Whole.{
  Written, short-Written, request-Written, reply-Written, length-sync_mech_str,
}

-- A type that has a name, that of an operation.
abbrev IsOperation : OpType → Type 0
IsOperation t = (name : List ℕ) × (op_type_str t ≡ some name)

-- A string that ends within its memory.
abbrev EndsIn : List ℕ → Type 0
EndsIn m = (s : List ℕ) × (string_in m ≡ some s)

-- Messages of the operations with passwords that fit, and accounts with arrays of the right sizes
-- whose strings end within them.
abbrev pub IsPrintable : Line → Type 0
IsPrintable (request id r) =
    IsOperation r.type
    × (length r.value.header.password ≤ max_password_len)
    × (length r.value.text ≤ max_password_len)
IsPrintable (reply id r) = IsOperation r.type
IsPrintable (office id tid opens) = Unit
IsPrintable (account_creation id a) =
    EndsIn a.salt
    × EndsIn (drop (hash_len - width_hash) a.hash)
    × (length a.salt ≡ salt_len + 3)
    × (length a.hash ≡ hash_len + 1)
IsPrintable (sync_mech id smo role sid) = Unit
IsPrintable (sync_mech_sem id smo role sid val) = Unit
IsPrintable (delay id delay_ms) = Unit
IsPrintable (sync_delay id sid delay_ms) = Unit

length-drop_le : (n : ℕ) (bs : List ℕ) → length (drop n bs) ≤ length bs
length-drop_le zero bs = omega arith
length-drop_le (suc n) [] = omega arith
length-drop_le (suc n) (b ∷ bs) = omega (arith, length-drop_le n bs)

account-Written :
    (own id : ℤ) (a : Account) (salt digits : List ℕ)
    → string_in a.salt ≡ some salt
    → string_in (drop (hash_len - width_hash) a.hash) ≡ some digits
    → length salt ≤ 67
    → length digits ≤ 65
    → Written own (account_creation id a)
unfolding line_text account_text account_parts
account-Written own id a salt digits e f h k =
    short-Written own (account_creation id a) (account_parts id a salt digits) (rw (e, f) refl) (
      omega (
        arith,
        length-zero_padded_le 5 id,
        length-zero_padded_le 4 (to_int a.account_id),
        length-right 64 salt,
        length-right 5 digits,
      ))

length-office_word : (opens : Bool) → length (office_word opens) ≤ 5
unfolding office_word
length-office_word true = omega arith
length-office_word false = omega arith

used_parts_length :
    (letter : ℕ) (id : ℤ) (role : SyncRole) (sid : ℤ) (rest : List (List ℕ))
    → total (used_parts letter id role sid rest) ≤ 50 + total rest
unfolding used_parts
used_parts_length letter id role sid rest =
    omega (arith, length-zero_padded_le 5 id, length-zero_padded_le 5 sid)

-- In a process `own`, every line has a text, all of which `atomicPrintf` writes and the length of
-- which it returns. The conditions: a message is of one of the four operations, the passwords of a
-- request have at most `MAX_PASSWORD_LEN` bytes, and an account's arrays have their sizes and hold
-- strings that end within them, the salt's from its start and the hash's from `WIDTH_HASH` before
-- its end.
pub line-Written : (own : ℤ) (l : Line) → IsPrintable l → Written own l
unfolding line_text office_parts delay_parts sync_mech_parts sync_mech_sem_parts sync_delay_parts
line-Written own (request id r) ((name, e), h, k) = request-Written own id r name e h k
line-Written own (reply id r) (name, e) = reply-Written own id r name e
line-Written own (office id tid opens) h =
    short-Written own (office id tid opens) (office_parts id tid opens) refl (
      omega (
        arith,
        length-zero_padded_le 5 id,
        length-left 5 (office_word opens),
        length-office_word opens,
        length-unsigned_long tid,
      ))
line-Written own (account_creation id a) ((salt, e), (digits, f), h, k) =
    account-Written own id a salt digits e f (omega (arith, h, length-string_in a.salt salt e)) (
      omega (
        arith,
        k,
        length-drop_le (hash_len - width_hash) a.hash,
        length-string_in (drop (hash_len - width_hash) a.hash) digits f,
      ))
line-Written own (sync_mech id smo role sid) h =
    let rest = sync_mech_str smo ∷ (10 ∷ []) ∷ [] in
    short-Written own (sync_mech id smo role sid) (used_parts b'S' id role sid rest) refl
      (omega (arith, used_parts_length b'S' id role sid rest, length-sync_mech_str smo))
line-Written own (sync_mech_sem id smo role sid val) h =
    let rest =
      sync_mech_str smo
      ∷ (32 ∷ b'[' ∷ b'v' ∷ b'a' ∷ b'l' ∷ b'=' ∷ [])
      ∷ sprintf_d val
      ∷ (b']' ∷ 10 ∷ [])
      ∷ [] in
    short-Written own (sync_mech_sem id smo role sid val) (used_parts b'S' id role sid rest) refl (
      omega (
        arith,
        used_parts_length b'S' id role sid rest,
        length-sync_mech_str smo,
        length-sprintf_d val,
      ))
line-Written own (delay id delay_ms) h =
    short-Written own (delay id delay_ms) (delay_parts id delay_ms) refl (
      omega (
        arith,
        length-zero_padded_le 5 id,
        length-right 5 (unsigned delay_ms),
        length-unsigned delay_ms,
      ))
line-Written own (sync_delay id sid delay_ms) h =
    let rest =
      (b'[' ∷ [])
      ∷ right width_delay (unsigned delay_ms)
      ∷ (32 ∷ b'm' ∷ b's' ∷ b']' ∷ 10 ∷ [])
      ∷ [] in
    short-Written own (sync_delay id sid delay_ms) (used_parts b'A' id role_account sid rest) refl (
      omega (
        arith,
        used_parts_length b'A' id role_account sid rest,
        length-right 5 (unsigned delay_ms),
        length-unsigned delay_ms,
      ))
