-- ===== src/User/Process/Records/Late.antt =====
-- The steps of `main` of user_f/user.c once the alarm is set.
use home_banking_system.Base.{ℕ, suc, ◌≡◌, refl, ap, Bool, true, false, arith, inl}
use home_banking_system.Types.{rc_ok, rc_usr_down}
use home_banking_system.User.Process.{
  Place, logging_request, marking_request, opening_fifo, marking_fifo, reading_reply,
  stopping_alarm, logging_reply, showing_reply, marking_reply, Process, Reply, succeeds, advance,
}
use home_banking_system.User.Process.Records.{Holds, IsKept, exit_user_process-IsKept}
use home_banking_system.User.Process.Records.Steps.{main_at}

abbrev is_late : Place → Bool
is_late logging_request = true
is_late marking_request = true
is_late opening_fifo = true
is_late marking_fifo = true
is_late reading_reply = true
is_late stopping_alarm = true
is_late logging_reply = true
is_late showing_reply = true
is_late marking_reply = true
is_late _ = false

-- A step of `main` from the logging of the request on.
pub late-IsKept :
    (n : ℕ) (place : Place) (a : Reply) (p : Process)
    → is_late place ≡ true
    → Holds n p place
    → IsKept n (advance place a p)
unfolding advance
late-IsKept n logging_request succeeds p is (h, s) = (
  record {
    none_yet = h.none_yet;
    srv_is = h.srv_is;
    user_is = h.user_is;
    logged_is = h.logged_is;
    reply_is = h.reply_is;
    alarm_is = h.alarm_is;
    asked_is = ap suc h.asked_is;
    told_is = h.told_is;
    there = h.there;
  },
  s,
)
late-IsKept n logging_request _ p is h = inl refl
late-IsKept n marking_request _ p is (h, s) = (
  record {
    none_yet = h.none_yet;
    srv_is = h.srv_is;
    user_is = h.user_is;
    logged_is = refl;
    reply_is = h.reply_is;
    alarm_is = h.alarm_is;
    asked_is = h.asked_is;
    told_is = h.told_is;
    there = h.there;
  },
  s,
)
late-IsKept n opening_fifo succeeds p is (h, s) = (main_at n p _ _ _ _ _ _ _ h, s)
late-IsKept n opening_fifo _ p is (h, s) =
    exit_user_process-IsKept n rc_usr_down p
      (record {
        once = omega (arith, h.none_yet);
        proper = λ e. ground arith;
        alarmed = λ set. (h.none_yet, h.logged_is, h.reply_is);
        there = h.there;
      })
      (λ e. absurd (ground (arith, e, h.logged_is)))
      (λ _. (omega (arith, h.asked_is), omega (arith, h.asked_is)))
      (λ _. (omega (arith, h.told_is), omega (arith, s), λ e. ground arith))
      (λ e. absurd (ground (arith, e, h.reply_is)))
late-IsKept n marking_fifo _ p is (h, s) = (
  record {
    none_yet = h.none_yet;
    srv_is = h.srv_is;
    user_is = refl;
    logged_is = h.logged_is;
    reply_is = h.reply_is;
    alarm_is = h.alarm_is;
    asked_is = h.asked_is;
    told_is = h.told_is;
    there = h.there;
  },
  s,
)
late-IsKept n reading_reply succeeds p is (h, s) = (main_at n p _ _ _ _ _ _ _ h, s)
late-IsKept n reading_reply _ p is h = inl refl
late-IsKept n stopping_alarm _ p is (h, s) = (
  record {
    none_yet = h.none_yet;
    srv_is = h.srv_is;
    user_is = h.user_is;
    logged_is = h.logged_is;
    reply_is = h.reply_is;
    alarm_is = refl;
    asked_is = h.asked_is;
    told_is = h.told_is;
    there = h.there;
  },
  s,
)
late-IsKept n logging_reply succeeds p is (h, s) = (
  record {
    none_yet = h.none_yet;
    srv_is = h.srv_is;
    user_is = h.user_is;
    logged_is = h.logged_is;
    reply_is = h.reply_is;
    alarm_is = h.alarm_is;
    asked_is = h.asked_is;
    told_is = ap suc h.told_is;
    there = h.there;
  },
  s,
  tt,
)
late-IsKept n logging_reply _ p is h = inl refl
late-IsKept n showing_reply succeeds p is (h, s, last) = (
  record {
    none_yet = h.none_yet;
    srv_is = h.srv_is;
    user_is = h.user_is;
    logged_is = h.logged_is;
    reply_is = h.reply_is;
    alarm_is = h.alarm_is;
    asked_is = h.asked_is;
    told_is = h.told_is;
    there = h.there;
  },
  ap suc s,
  last,
  tt,
)
late-IsKept n showing_reply _ p is h = inl refl
late-IsKept n marking_reply _ p is (h, s, last, shown) =
    exit_user_process-IsKept n rc_ok (record p { logged_reply = true })
      (record {
        once = omega (arith, h.none_yet);
        proper = λ e. ground arith;
        alarmed = λ set. absurd (ground (arith, set, h.alarm_is));
        there = h.there;
      })
      (λ e. absurd (ground (arith, e, h.logged_is)))
      (λ _. (omega (arith, h.asked_is), omega (arith, h.asked_is)))
      (λ e. absurd (ground (arith, e)))
      (λ _. (
        ((omega (arith, h.told_is), omega (arith, h.told_is)), last),
        ((omega (arith, s), omega (arith, s)), shown),
      ))
late-IsKept n _ a p is h = absurd (ground arith)
