-- ===== src/Server/Offices.antt =====
-- server_f/active_offices.c. The counter is an `int`, kept as its bit pattern.
pub mod Count
use home_banking_system.Base.{ℕ, ◌+◌, ◌-◌, ◌%◌, ◌^◌, if◌then◌else◌}
use home_banking_system.Base.Int.{ℤ, not_zero}
use home_banking_system.Os.{
  Prog, ret, ◌>>=◌, ◌>>◌, do_call, load_active_offices, store_active_offices,
}
use home_banking_system.Server.Sync.{lock_active_office_mutex, unlock_active_office_mutex}

unfoldable pub get_active_offices : Prog ℕ
get_active_offices = do_call load_active_offices

-- `active_offices++` and `active_offices--` under the counter's mutex.
unfoldable pub change_active_offices : (ℕ → ℕ) → Prog ℤ
unfolding lock_active_office_mutex unlock_active_office_mutex
change_active_offices change = do
  r ← lock_active_office_mutex
  if not_zero r then ret r else do
    n ← do_call load_active_offices
    do_call (store_active_offices (change n))
    unlock_active_office_mutex

unfoldable pub increase_active_offices : Prog ℤ
unfolding change_active_offices
increase_active_offices = change_active_offices (λ n. (n + 1) % 2 ^ 32)

unfoldable pub decrease_active_offices : Prog ℤ
unfolding change_active_offices
decrease_active_offices = change_active_offices (λ n. (n + 2 ^ 32 - 1) % 2 ^ 32)
