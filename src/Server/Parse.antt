-- ===== src/Server/Parse.antt =====
-- server_f/server_parse.c: the checks of the server's arguments, less the messages.
use home_banking_system.Base.{ℕ, Bool, ◌&&◌, not, List}
use home_banking_system.Base.Int.{ℤ, pos, ltb_ℤ}
use home_banking_system.Types.{max_bank_offices}
use home_banking_system.Shared.Accounts.{valid_pwd}

unfoldable pub valid_args : ℤ → List ℕ → Bool
valid_args n_threads pwd =
    ltb_ℤ (pos 0) n_threads && (not (ltb_ℤ (pos max_bank_offices) n_threads) && valid_pwd pwd)
