-- ===== src/User/Process/Records/Whole.antt =====
-- A whole run of user_f/user.c.
use home_banking_system.Base.{ℕ, ◌≡◌, ◌≢◌, refl, subst, false, arith, inl, inr}
use home_banking_system.Types.{RetCode, rc_other}
use home_banking_system.User.Process.{
  Place, opening_log, making_fifo, opening_srv, writing_request, setting_alarm, logging_request,
  marking_request, opening_fifo, marking_fifo, reading_reply, stopping_alarm, logging_reply,
  showing_reply, marking_reply, leaving, ended, Process, Reply, advance, has_ended, Reached, start,
  answered, rang,
}
use home_banking_system.User.Process.Records.{Completed, Holds, IsKept}
use home_banking_system.User.Process.Records.Steps.{leave-IsKept, early-IsKept}
use home_banking_system.User.Process.Records.Late.{late-IsKept}
use home_banking_system.User.Process.Records.Alarm.{ring-IsKept}

advance-IsKept :
    (n : ℕ) (place : Place) (a : Reply) (p : Process)
    → has_ended place ≡ false
    → Holds n p place
    → IsKept n (advance place a p)
unfolding advance
advance-IsKept n (leaving code stage) a p alive (h, k) = leave-IsKept n code stage a p h k
advance-IsKept n (ended code) a p alive h = absurd (ground arith)
advance-IsKept n opening_log a p alive h = early-IsKept n opening_log a p refl h
advance-IsKept n making_fifo a p alive h = early-IsKept n making_fifo a p refl h
advance-IsKept n opening_srv a p alive h = early-IsKept n opening_srv a p refl h
advance-IsKept n writing_request a p alive h = early-IsKept n writing_request a p refl h
advance-IsKept n setting_alarm a p alive h = early-IsKept n setting_alarm a p refl h
advance-IsKept n logging_request a p alive h = late-IsKept n logging_request a p refl h
advance-IsKept n marking_request a p alive h = late-IsKept n marking_request a p refl h
advance-IsKept n opening_fifo a p alive h = late-IsKept n opening_fifo a p refl h
advance-IsKept n marking_fifo a p alive h = late-IsKept n marking_fifo a p refl h
advance-IsKept n reading_reply a p alive h = late-IsKept n reading_reply a p refl h
advance-IsKept n stopping_alarm a p alive h = late-IsKept n stopping_alarm a p refl h
advance-IsKept n logging_reply a p alive h = late-IsKept n logging_reply a p refl h
advance-IsKept n showing_reply a p alive h = late-IsKept n showing_reply a p refl h
advance-IsKept n marking_reply a p alive h = late-IsKept n marking_reply a p refl h

course-IsKept : (k n : ℕ) (p : Process) → Reached k n p → IsKept n p
course-IsKept _ _ _ start = (
  record {
    none_yet = refl;
    srv_is = refl;
    user_is = refl;
    logged_is = refl;
    reply_is = refl;
    alarm_is = refl;
    asked_is = refl;
    told_is = refl;
    there = refl;
  },
  refl,
)
course-IsKept _ _ _ (answered k n p a course alive) =
    advance-IsKept n p.place a p alive (course-IsKept k n p course)
course-IsKept _ _ _ (rang k n p course alive set) =
    ring-IsKept n p.place p alive set (course-IsKept k n p course)

-- A process of the user that ends with a code other than `RC_OTHER`, however the calls answered and
-- whenever the alarm came, has got at most one alarm; it has logged its request and a reply and shown
-- a reply, each exactly once if no alarm came and at most twice if one did; the newest reply, in the
-- log and as shown, is the server's if the code is `RC_OK`, and otherwise its own for the code; each
-- descriptor that it noted as opened is closed; and its FIFO is gone.
pub course_keeps :
    (k n : ℕ) (p : Process) (code : RetCode)
    → Reached k n p
    → p.place ≡ ended code
    → code ≢ rc_other
    → Completed n code p
course_keeps k n p code course is proper =
    elim (subst (Holds n p) is (course-IsKept k n p course)) [
      | inl e ↦ absurd (proper e)
      | inr done ↦ done
    ]
