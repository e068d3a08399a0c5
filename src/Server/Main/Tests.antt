-- ===== src/Server/Main/Tests.antt =====
-- The server's arguments, and a round of the main thread with a request on the pipe.
use home_banking_system.Base.{◌≡◌, refl, true, some, [], ◌∷◌, arith}
use home_banking_system.Base.Int.{pos}
use home_banking_system.Types.{OpType, TlvRequest}
use home_banking_system.Os.Run.{Sys, run, reliable, Ends}
use home_banking_system.Sample.{env, start, admin_pwd, pays}
use home_banking_system.Server.Main.{main_round, parse_args}
use home_banking_system.Server.Main.Arguments.{parse_args-sprintf_d}
use home_banking_system.Shared.Protocol.FifoName.{sprintf_d}
use home_banking_system.Server.Main.Loop.{IsRound, main_round_lem}
use home_banking_system.Server.Office.Steps.{Situation, At}

parse_args-sprintf_d_example : parse_args (sprintf_d (pos 3) ∷ admin_pwd ∷ []) ≡ some (3, admin_pwd)
parse_args-sprintf_d_example = parse_args-sprintf_d (pos 3) admin_pwd (omega arith)

abbrev request : TlvRequest
request = record { type = OpType.transfer; length = 41; value = pays }

-- The request is on the pipe.
abbrev sent : Sys
sent = record start { incoming = request ∷ [] }

abbrev situation : Situation
situation = record {
  queue = [];
  incoming = request ∷ [];
  full_value = 0;
  empty_value = 3;
  balcony_open = true;
  held = [];
}

sent-At : At situation sent
sent-At = record {
  queue = refl;
  incoming = refl;
  full_value = refl;
  empty_value = refl;
  balcony_open = refl;
  held = refl;
}

main_round_lem_example :
    Ends (IsRound situation true (request ∷ [])) (run (reliable env) (main_round (pos 3)) sent)
main_round_lem_example =
    main_round_lem env (pos 3) true (request ∷ []) situation sent sent-At refl refl refl
      (omega arith, omega arith) (λ e. (omega arith, omega arith))
