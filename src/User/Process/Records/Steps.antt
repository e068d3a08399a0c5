-- ===== src/User/Process/Records/Steps.antt =====
-- Each step of user_f/user.c against what is kept in User/Process/Records.
use home_banking_system.Base.{
  ℕ, ◌≡◌, ◌≢◌, refl, sym, ◌∙◌, ◌&&◌, not, Bool, true, false, List, ◌∷◌, arith, Bool-cases, inl, inr,
}
use home_banking_system.Types.{RetCode, rc_ok, rc_srv_down}
use home_banking_system.User.Process.{
  Leaving, log_request, log_error, show_error, close_srv, close_user, unlink_fifo, Place,
  opening_log, making_fifo, opening_srv, writing_request, setting_alarm, Entry, request,
  error_reply, Process, Reply, succeeds, fails, ok, go, leave, advance,
}
use home_banking_system.User.Process.Records.{
  IsLast, InMain, Exiting, Stage, Holds, IsKept, close_user_fifo-IsKept, close_fifos-IsKept,
  report-IsKept, exit_user_process-IsKept,
}

IsLast-error_reply :
    (code : RetCode) (es : List Entry) → code ≢ rc_ok → IsLast code (error_reply code ∷ es)
IsLast-error_reply code es other = ground arith

same_leaves :
    (n : ℕ) (code : RetCode) (p q : Process)
    → Exiting n p code
    → q.alarm ≡ p.alarm
    → q.logged_request ≡ p.logged_request
    → q.logged_reply ≡ p.logged_reply
    → q.unlinked ≡ p.unlinked
    → Exiting n q code
same_leaves n code p q h alarm_is asked_is told_is there_is = record {
  once = h.once;
  proper = h.proper;
  alarmed = λ set. let (a, b, c) = h.alarmed (sym alarm_is ∙ set) in (a, asked_is ∙ b, told_is ∙ c);
  there = there_is ∙ h.there;
}

-- A step of `exit_user_process`.
pub leave-IsKept :
    (n : ℕ) (code : RetCode) (stage : Leaving) (a : Reply) (p : Process)
    → Exiting n p code
    → Stage n p code stage
    → IsKept n (leave code stage a p)
unfolding leave
leave-IsKept n code log_request succeeds p h (asked, told, shown, calm, unanswered, other) =
    report-IsKept n code (record p { logfile = request ∷ p.logfile })
      (same_leaves n code p _ h refl refl refl refl) (omega arith, omega arith)
      (λ _. (omega arith, omega arith, other)) (λ e. absurd (ground (arith, e, unanswered)))
leave-IsKept n code log_request _ p h k = inl refl
leave-IsKept n code log_error succeeds p h (asked, told, shown, other) = (
  same_leaves n code p _ h refl refl refl refl,
  (asked, ((omega arith, omega arith), IsLast-error_reply code p.logfile other), shown, other),
)
leave-IsKept n code log_error _ p h k = inl refl
leave-IsKept n code show_error succeeds p h (asked, told, shown, other) =
    close_fifos-IsKept n code (record p { stdout = error_reply code ∷ p.stdout })
      (same_leaves n code p _ h refl refl refl refl) asked told
      ((omega arith, omega arith), IsLast-error_reply code p.stdout other)
leave-IsKept n code show_error _ p h k = inl refl
leave-IsKept n code close_srv a p h (asked, told, shown) =
    elim (Bool-cases (not p.srv_closed && ok a)) [
      | inr e ↦ rw e (inl refl)
      | inl e ↦ rw e (
          close_user_fifo-IsKept n code (record p { srv_closed = true })
            (same_leaves n code p _ h refl refl refl refl) asked told shown (λ _. refl))
    ]
leave-IsKept n code close_user a p h (asked, told, shown, srv) =
    elim (Bool-cases (not p.user_closed && ok a)) [
      | inr e ↦ rw e (inl refl)
      | inl e ↦
          rw e (same_leaves n code p _ h refl refl refl refl, (asked, told, shown, srv, λ _. refl))
    ]
leave-IsKept n code unlink_fifo a p h (asked, told, shown, srv, user) =
    elim (Bool-cases (not p.unlinked && ok a)) [
      | inr e ↦ rw e (inl refl)
      | inl e ↦ rw e (inr (h.once, asked, told, shown, srv, user, refl))
    ]

pub main_at :
    (n : ℕ) (p : Process) (place : Place) (srv user logged alarm : Bool) (asked told : ℕ)
    → InMain n p srv user logged alarm asked told
    → InMain n (go place p) srv user logged alarm asked told
main_at n p place srv user logged alarm asked told h = record {
  none_yet = h.none_yet;
  srv_is = h.srv_is;
  user_is = h.user_is;
  logged_is = h.logged_is;
  reply_is = h.reply_is;
  alarm_is = h.alarm_is;
  asked_is = h.asked_is;
  told_is = h.told_is;
  there = h.there;
}

abbrev pub is_early : Place → Bool
is_early opening_log = true
is_early making_fifo = true
is_early opening_srv = true
is_early writing_request = true
is_early setting_alarm = true
is_early _ = false

-- A step of `main` before the alarm is set.
pub early-IsKept :
    (n : ℕ) (place : Place) (a : Reply) (p : Process)
    → is_early place ≡ true
    → Holds n p place
    → IsKept n (advance place a p)
unfolding advance
early-IsKept n opening_log succeeds p is (h, s) = (main_at n p _ _ _ _ _ _ _ h, s)
early-IsKept n opening_log _ p is h = inl refl
early-IsKept n making_fifo fails p is h = inl refl
early-IsKept n making_fifo _ p is (h, s) = (main_at n p _ _ _ _ _ _ _ h, s)
early-IsKept n opening_srv succeeds p is (h, s) = (
  record {
    none_yet = h.none_yet;
    srv_is = refl;
    user_is = h.user_is;
    logged_is = h.logged_is;
    reply_is = h.reply_is;
    alarm_is = h.alarm_is;
    asked_is = h.asked_is;
    told_is = h.told_is;
    there = h.there;
  },
  s,
)
early-IsKept n opening_srv _ p is (h, s) =
    exit_user_process-IsKept n rc_srv_down p
      (record {
        once = omega (arith, h.none_yet);
        proper = λ e. ground arith;
        alarmed = λ set. absurd (ground (arith, set, h.alarm_is));
        there = h.there;
      })
      (λ _. (omega (arith, h.asked_is), h.told_is, s, h.alarm_is, h.reply_is, λ e. ground arith))
      (λ e. absurd (ground (arith, e, h.logged_is)))
      (λ _. (omega (arith, h.told_is), omega (arith, s), λ e. ground arith))
      (λ e. absurd (ground (arith, e, h.reply_is)))
early-IsKept n writing_request succeeds p is (h, s) = (main_at n p _ _ _ _ _ _ _ h, s)
early-IsKept n writing_request _ p is h = inl refl
early-IsKept n setting_alarm _ p is (h, s) = (
  record {
    none_yet = h.none_yet;
    srv_is = h.srv_is;
    user_is = h.user_is;
    logged_is = h.logged_is;
    reply_is = h.reply_is;
    alarm_is = refl;
    asked_is = h.asked_is;
    told_is = h.told_is;
    there = h.there;
  },
  s,
)
early-IsKept n _ a p is h = absurd (ground arith)
