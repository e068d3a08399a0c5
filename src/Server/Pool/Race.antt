-- ===== src/Server/Pool/Race.antt =====
-- Two offices that see one request: between its look at the queue and its taking of a request an office
-- of server_f/server.c does not keep the queue's mutex.
use home_banking_system.Base.{ℕ, suc, ◌≡◌, refl, true, false, [], ◌∷◌}
use home_banking_system.Types.{TlvRequest, OpType}
use home_banking_system.Server.Pool.{
  wakes, checks, stays, takes, finds_none, posts_empty, closes, replies, reads, stops, waits,
  pushes, posts_full, posts_end, State, Trace, none, initial,
}
use home_banking_system.Server.Pool.Walk.{by_main, by_first, by_second, ◌then◌}

-- In a server of at least two offices, whatever two requests come, the first of them for a shutdown
-- that succeeds: there is an order of steps, in which no call fails, after which the bank is closed, an
-- office has found the queue empty where it takes a request, and so the process has ended.
pub shutdown_races :
    (n : ℕ) (r r' : TlvRequest)
    → r.type ≡ OpType.shutdown
    → (k : ℕ) × (x : State) × Trace (suc (suc n)) k (initial (suc (suc n))) x
      × (x.shared.balcony_open ≡ false)
      × (x.shared.taken ≡ r ∷ r' ∷ [])
      × (x.shared.ended ≡ true)
shutdown_races n r r' shuts = (
  _,
  _,
  none (initial (suc (suc n)))
      then by_main refl (reads _ r refl)
      then by_main refl (waits _ r (suc n) refl)
      then by_main refl (pushes _ r)
      then by_main refl (posts_full _)
      then by_main refl (reads _ r' refl)
      then by_main refl (waits _ r' n refl)
      then by_main refl (pushes _ r')
      then by_main refl (posts_full _)
      then by_first refl (wakes _ 1 refl)
      then by_first refl (checks _)
      then by_first refl (stays _ false refl)
      then by_first refl (takes _ r (r' ∷ []) refl)
      then by_first refl (posts_empty _ r)
      then by_first refl (closes _ r shuts)
      then by_main refl (stops _ refl)
      then by_main refl (posts_end _ (suc n))
      then by_second refl (wakes _ 1 refl)
      then by_second refl (checks _)
      then by_second refl (stays _ false refl)
      then by_first refl (replies _)
      then by_first refl (wakes _ 0 refl)
      then by_first refl (checks _)
      then by_first refl (stays _ false refl)
      then by_first refl (takes _ r' [] refl)
      then by_second refl (finds_none _ refl),
  refl,
  refl,
  refl,
)
