-- ===== src/User/Process/Tests.antt =====
-- A process of the user whose calls all succeed.
use home_banking_system.Base.{ℕ, suc, ◌≤◌, ◌≡◌, refl, true, false, [], ◌∷◌, arith}
use home_banking_system.Types.{rc_ok}
use home_banking_system.User.Process.{
  Process, Reply, ended, request, reply, succeeds, advance, exit_user_process, has_ended, started,
  left_alone, opening_fifo, Reached, start, answered,
}
use home_banking_system.User.Process.Records.{Completed}
use home_banking_system.User.Process.Records.Whole.{course_keeps}
use home_banking_system.User.Process.Ending.{course_ends}

-- One more call that succeeds.
on :
    {k n : ℕ} {p : Process}
    → Reached k n p
    → has_ended p.place ≡ false
    → Reached (suc k) n (advance p.place succeeds p)
on {k} {n} {p} course alive = answered k n p succeeds course alive

abbrev last : Process
last = record started {
  place = ended rc_ok;
  opened_user_fifo = true;
  opened_srv_fifo = true;
  logged_request = true;
  logged_reply = true;
  logfile = reply ∷ request ∷ [];
  stdout = reply ∷ [];
  srv_closed = true;
  user_closed = true;
  unlinked = true;
}

-- Where it waits for its FIFO's other end.
abbrev waiting : Process
waiting = record started {
  place = opening_fifo;
  opened_srv_fifo = true;
  logged_request = true;
  alarm = true;
  logfile = request ∷ [];
}

to_waiting : Reached 7 0 waiting
unfolding advance
to_waiting = on (on (on (on (on (on (on start refl) refl) refl) refl) refl) refl) refl

course : Reached 17 0 last
unfolding advance exit_user_process
course =
    on
      (on
        (on
          (on
            (on
              (on
                (on
                  (on
                    (on
                      (on
                        (on (on (on (on (on (on (on start refl) refl) refl) refl) refl) refl) refl)
                        refl)
                      refl)
                    refl)
                  refl)
                refl)
              refl)
            refl)
          refl)
        refl)
      refl

course_keeps_example : Completed 0 rc_ok last
course_keeps_example = course_keeps 17 0 last rc_ok course refl (λ e. ground arith)

course_ends_example :
    (7 ≤ 28) × ((answers : ℕ → Reply) → has_ended (left_alone 28 answers waiting).place ≡ true)
course_ends_example = course_ends 7 0 waiting to_waiting
