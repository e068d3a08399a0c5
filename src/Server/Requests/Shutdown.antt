-- ===== src/Server/Requests/Shutdown.antt =====
-- `shutdown_request` when no call fails.
use home_banking_system.Base.{
  suc, ◌+◌, ◌≡◌, refl, subst, ◌∙◌, inl, inr, false, [], ◌∷◌, arith, if◌then◌else◌, Bool-cases,
}
use home_banking_system.Base.Int.{ℤ, pos}
use home_banking_system.Types.{ReqValue, RetCode}
use home_banking_system.Os.{delay}
use home_banking_system.Os.Run.{Env, Sys, done, run, run_then, reliable, tick, Ends, Ends-of_eq}
use home_banking_system.Shared.Crypto.Digest.{IsDigest}
use home_banking_system.Server.Sync.{stdout_fileno}
use home_banking_system.Server.SyncLog.{sync_log_delay}
use home_banking_system.Server.Requests.{
  is_ok, is_ok-eq, is_valid_shutdown_request, shutdown_request,
}
use home_banking_system.Server.Requests.Errors.{
  IsFirstError, shutdown_errors, shutdown_code, shutdown_code-first,
}
use home_banking_system.Server.Requests.Checks.{
  IsRequest, IsLogin, header_only, header_only-IsRequest, AllStored, shutdown_check_lem,
}

-- What a shutdown request, begun in the state `s`, returns and leaves.
abbrev pub ShutdownEffect : Env → ReqValue → ℤ → ℤ → Sys → RetCode → Sys → Type 0
ShutdownEffect env v secure_srv dummy s code t =
    IsFirstError (shutdown_errors env s.accounts v) code
    × (t.held ≡ [])
    × (t.accounts ≡ s.accounts)
    × (t.balcony_open ≡ (if is_ok code then false else s.balcony_open))
    × (t.closed ≡ (if is_ok code then dummy ∷ s.closed else s.closed))
    × (t.modes ≡ (if is_ok code then (secure_srv, 0o444) ∷ s.modes else s.modes))

-- The state after the delay.
abbrev waited : ReqValue → ℤ → Sys → Sys
waited v id s = record s {
  log = (stdout_fileno, delay id v.header.op_delay_ms) ∷ s.log;
  calls = s.calls + 4;
}

wait_lem :
    (env : Env) (v : ReqValue) (id : ℤ) (s : Sys)
    → s.held ≡ []
    → run (reliable env) (sync_log_delay stdout_fileno id v.header.op_delay_ms) (tick s)
      ≡ done (pos (env.number (suc (suc s.calls)))) (waited v id s)
unfolding run sync_log_delay
wait_lem env v id s free = ground arith

shutdown_request_lem :
    (env : Env) (v : ReqValue) (id secure_srv dummy : ℤ) (s : Sys)
    → IsDigest env
    → IsRequest v
    → AllStored s.accounts
    → s.held ≡ []
    → Ends
        (ShutdownEffect env v secure_srv dummy s)
        (run (reliable env) (shutdown_request v id secure_srv dummy) s)
unfolding shutdown_request run
shutdown_request_lem env v id secure_srv dummy s d q h free =
    Ends-of_eq (ShutdownEffect env v secure_srv dummy s)
      (run_then (reliable env) (sync_log_delay stdout_fileno id v.header.op_delay_ms) _ (tick s)
          (wait_lem env v id s free)
        ∙ run_then (reliable env) (is_valid_shutdown_request v) _ _
            (shutdown_check_lem env v (waited v id s) d q h))
      (elim (Bool-cases (is_ok (shutdown_code env s.accounts v))) [
        | inl e ↦ rw e (
          subst (IsFirstError (shutdown_errors env s.accounts v)) (is_ok-eq _ e)
              (shutdown_code-first env s.accounts v),
          free,
          refl,
          refl,
          refl,
          refl,
        )
        | inr e ↦
            rw e (shutdown_code-first env s.accounts v, free, refl, rw e refl, rw e refl, rw e refl)
      ])

pub shutdown_request-header_only :
    (v : ReqValue) (id secure_srv dummy : ℤ)
    → shutdown_request (header_only v) id secure_srv dummy ≡ shutdown_request v id secure_srv dummy
unfolding shutdown_request is_valid_shutdown_request
shutdown_request-header_only v id secure_srv dummy = refl

-- When no call fails, `shutdown_request` for a header with the number of an account and a
-- password that fits, run by an office that holds
-- no mutex, returns `RC_OK` or the first error in the order of `ret_code`; if and only if it returns
-- `RC_OK` the bank is closed, the dummy descriptor is closed and the pipe made read-only; no account
-- changes, and no mutex is held.
pub shutdown_request_effect :
    (env : Env) (v : ReqValue) (id secure_srv dummy : ℤ) (s : Sys)
    → IsDigest env
    → IsLogin v
    → AllStored s.accounts
    → s.held ≡ []
    → Ends
        (ShutdownEffect env v secure_srv dummy s)
        (run (reliable env) (shutdown_request v id secure_srv dummy) s)
shutdown_request_effect env v id secure_srv dummy s d q h free =
    subst (λ p. Ends (ShutdownEffect env v secure_srv dummy s) (run (reliable env) p s))
      (shutdown_request-header_only v id secure_srv dummy)
      (shutdown_request_lem env (header_only v) id secure_srv dummy s d (header_only-IsRequest v q)
        h free)
