-- ===== src/Types/Constants.antt =====
-- shared/constants.h
use home_banking_system.Base.{ℕ, ◌+◌}

abbrev pub max_bank_offices : ℕ
max_bank_offices = 99

abbrev pub max_bank_accounts : ℕ
max_bank_accounts = 4096

abbrev pub min_balance : ℕ
min_balance = 1

abbrev pub max_balance : ℕ
max_balance = 1_000_000_000

abbrev pub admin_account_id : ℕ
admin_account_id = 0

abbrev pub main_thread_id : ℕ
main_thread_id = 0

abbrev pub min_password_len : ℕ
min_password_len = 8

abbrev pub max_password_len : ℕ
max_password_len = 20

abbrev pub hash_len : ℕ
hash_len = 64

abbrev pub salt_len : ℕ
salt_len = 64

abbrev pub width_pid : ℕ
width_pid = 5

abbrev pub max_op_delay_ms : ℕ
max_op_delay_ms = 99_999

abbrev pub empty_account_id : ℕ
empty_account_id = max_bank_accounts + 1

abbrev pub invalid_balance : ℕ
invalid_balance = max_balance + 1

abbrev pub unknown_pid : ℕ
unknown_pid = 0

abbrev pub width_id : ℕ
width_id = 5

abbrev pub width_delay : ℕ
width_delay = 5

abbrev pub width_account : ℕ
width_account = 4

abbrev pub width_balance : ℕ
width_balance = 10

abbrev pub width_op : ℕ
width_op = 8

abbrev pub width_rc : ℕ
width_rc = 12

abbrev pub width_hash : ℕ
width_hash = 5

abbrev pub width_tlv_len : ℕ
width_tlv_len = 3

abbrev pub width_startend : ℕ
width_startend = 5
