-- ===== src/Server/Pool/Tests.antt =====
-- A server with one office that serves a request and closes the bank.
use home_banking_system.Base.{ℕ, ◌≤◌, ◌<◌, ◌≡◌, refl, true, false, [], ◌∷◌, length, arith, ◌⊎◌}
use home_banking_system.Types.{TlvRequest, OpType}
use home_banking_system.Sample.{closes, pays}
use home_banking_system.Server.Pool.{
  Shared, Move, State, Trace, none, initial, waiting, checking, posting, left, ending, over, reads,
  stops, waits, pushes, posts_full, posts_end, wakes, checks, leaves, stays, takes, posts_empty,
  replies,
}
use home_banking_system.Server.Pool.Walk.{by_main, by_first, ◌then◌, state}
use home_banking_system.Server.Pool.Counts.{count, has_left}
use home_banking_system.Server.Pool.Orderly.{pool_keeps, pool_drains}
use home_banking_system.Server.Pool.Ending.{CanStep, budget, pool_ends}
use home_banking_system.Server.Pool.Race.{shutdown_races}

abbrev shuts : TlvRequest
shuts = record { type = OpType.shutdown; length = 33; value = closes }

abbrev transfers : TlvRequest
transfers = record { type = OpType.transfer; length = 41; value = pays }

-- The request has been served, and the bank is closed.
abbrev served : ℕ → Shared
served f = record {
  full_value = f;
  empty_value = 1;
  queue = [];
  balcony_open = false;
  accepted = shuts ∷ [];
  taken = shuts ∷ [];
  ended = false;
}

abbrev stopped_at : State
stopped_at = state (served 0) (ending 1) (waiting ∷ [])

abbrev over_at : State
over_at = state (served 0) (ending 0) (left ∷ [])

stopped_run : Trace 1 12 (initial 1) stopped_at
stopped_run =
    none (initial 1)
    then by_main refl (reads _ shuts refl)
    then by_main refl (waits _ shuts 0 refl)
    then by_main refl (pushes _ shuts)
    then by_main refl (posts_full _)
    then by_first refl (wakes _ 0 refl)
    then by_first refl (checks _)
    then by_first refl (stays _ false refl)
    then by_first refl (takes _ shuts [] refl)
    then by_first refl (posts_empty _ shuts)
    then by_first refl (Move.closes _ shuts refl)
    then by_first refl (replies _)
    then by_main refl (stops _ refl)

over_run : Trace 1 16 (initial 1) over_at
over_run =
    stopped_run
    then by_main refl (posts_end _ 0)
    then by_first refl (wakes _ 0 refl)
    then by_first refl (checks _)
    then by_first refl (leaves _ true refl)

leaving_run : Trace 1 2 stopped_at (state (served 0) (ending 0) (checking ∷ []))
leaving_run = none stopped_at then by_main refl (posts_end _ 0) then by_first refl (wakes _ 0 refl)

abbrev queued_at : State
queued_at =
    state (record (initial 1).shared { empty_value = 0; queue = shuts ∷ []; accepted = shuts ∷ [] })
      posting (waiting ∷ [])

queued_run : Trace 1 3 (initial 1) queued_at
queued_run =
    none (initial 1)
    then by_main refl (reads _ shuts refl)
    then by_main refl (waits _ shuts 0 refl)
    then by_main refl (pushes _ shuts)

pool_keeps_example :
    (shuts ∷ [] ≡ shuts ∷ [])
    × (length (shuts ∷ []) ≤ 1)
    × (false ≡ false → (false ≡ false) × (count has_left (waiting ∷ []) ≡ 0))
    × (0 < count has_left (waiting ∷ []) → shuts ∷ [] ≡ [])
pool_keeps_example = pool_keeps 1 3 queued_at queued_run

pool_drains_example : shuts ∷ [] ≡ shuts ∷ []
pool_drains_example = pool_drains 1 16 over_at over_run (omega arith) tt

pool_ends_example :
    (2 ≤ budget stopped_at)
    × (CanStep 1 (state (served 0) (ending 0) (checking ∷ []))
        ⊎ ((ending 0 ≡ over) ⊎ (false ≡ true)))
pool_ends_example =
    pool_ends 1 12 stopped_at stopped_run refl 2 (state (served 0) (ending 0) (checking ∷ []))
      leaving_run

shutdown_races_example :
    (k : ℕ) × (x : State) × Trace 2 k (initial 2) x
    × (x.shared.balcony_open ≡ false)
    × (x.shared.taken ≡ shuts ∷ transfers ∷ [])
    × (x.shared.ended ≡ true)
shutdown_races_example = shutdown_races 0 shuts transfers refl
