-- ===== src/User/Process/Records/Alarm.antt =====
-- The alarm of user_f/user.c.
use home_banking_system.Base.{
  ℕ, suc, ◌+◌, ◌≤◌, ◌≡◌, refl, sym, subst, ◌∙◌, Bool, true, false, arith,
}
use home_banking_system.Types.{RetCode, rc_srv_timeout}
use home_banking_system.User.Process.{
  Leaving, log_request, log_error, show_error, close_srv, close_user, unlink_fifo, Place,
  opening_log, making_fifo, opening_srv, writing_request, setting_alarm, logging_request,
  marking_request, opening_fifo, marking_fifo, reading_reply, stopping_alarm, logging_reply,
  showing_reply, marking_reply, leaving, ended, Process, sigalarm_handler, has_ended,
}
use home_banking_system.User.Process.Records.{
  requests, replies, Asked, InMain, Stage, Holds, IsKept, exit_user_process-IsKept,
}

-- The alarm, which comes once: what was logged before may be logged again.
rung-IsKept :
    (p : Process)
    → (p.logged_request ≡ false
        → (requests p.logfile ≤ 1) × (replies p.logfile ≡ 0) × (replies p.stdout ≡ 0))
    → (p.logged_request ≡ true → Asked 1 p)
    → replies p.logfile ≤ 1
    → replies p.stdout ≤ 1
    → p.logged_reply ≡ false
    → p.unlinked ≡ false
    → IsKept 1 (sigalarm_handler p)
unfolding sigalarm_handler
rung-IsKept p unasked asked told shown unanswered there =
    exit_user_process-IsKept 1 rc_srv_timeout (record p { alarm = false })
      (record {
        once = omega arith;
        proper = λ e. ground arith;
        alarmed = λ set. absurd (ground (arith, set));
        there = there;
      })
      (λ e. let (a, b, c) = unasked e in (a, b, c, refl, unanswered, λ e. ground arith)) asked
      (λ _. (told, shown, λ e. ground arith)) (λ e. absurd (ground (arith, e, unanswered)))

main_rings :
    (n : ℕ) (p : Process) (srv user logged : Bool) (asked : ℕ)
    → InMain n p srv user logged true asked 0
    → replies p.stdout ≡ 0
    → (logged ≡ false → asked ≤ 1)
    → (logged ≡ true → asked ≡ 1)
    → IsKept (suc n) (sigalarm_handler p)
main_rings n p srv user logged asked h s few one =
    subst (λ m. IsKept (suc m) (sigalarm_handler p)) (sym h.none_yet)
      (rung-IsKept p (λ e. (omega (arith, h.asked_is, few (sym h.logged_is ∙ e)), h.told_is, s))
        (λ e.
          let is = one (sym h.logged_is ∙ e) in
          (omega (arith, h.asked_is, is), omega (arith, h.asked_is, is)))
        (omega (arith, h.told_is)) (omega (arith, s)) h.reply_is h.there)

module _ (n : ℕ) (code : RetCode) (p : Process)
    (first : (n ≡ 0) × (p.logged_request ≡ true) × (p.logged_reply ≡ false)) (set : p.alarm ≡ true)
    (there : p.unlinked ≡ false) where
  told_rings :
      Asked n p
      → replies p.logfile ≤ 1 + n
      → replies p.stdout ≤ 1 + n
      → IsKept (suc n) (sigalarm_handler p)
  told_rings (least, most) told shown =
      let (none_yet, asked, unanswered) = first in
      subst (λ m. IsKept (suc m) (sigalarm_handler p)) (sym none_yet)
        (rung-IsKept p (λ e. absurd (ground (arith, e, asked)))
          (λ _. (least, omega (arith, most, none_yet))) (omega (arith, told, none_yet))
          (omega (arith, shown, none_yet)) unanswered there)

  leaving_rings : (stage : Leaving) → Stage n p code stage → IsKept (suc n) (sigalarm_handler p)
  leaving_rings log_request (asked, told, shown, calm, unanswered, other) =
      absurd (ground (arith, calm, set))
  leaving_rings log_error (asked, told, shown, other) = told_rings asked (omega arith) (omega arith)
  leaving_rings show_error (asked, told, shown, other) = told_rings asked ((told.0).1) (omega arith)
  leaving_rings close_srv (asked, told, shown) = told_rings asked ((told.0).1) ((shown.0).1)
  leaving_rings close_user (asked, told, shown, srv) = told_rings asked ((told.0).1) ((shown.0).1)
  leaving_rings unlink_fifo (asked, told, shown, srv, user) =
      told_rings asked ((told.0).1) ((shown.0).1)

pub ring-IsKept :
    (n : ℕ) (place : Place) (p : Process)
    → has_ended place ≡ false
    → p.alarm ≡ true
    → Holds n p place
    → IsKept (suc n) (sigalarm_handler p)
ring-IsKept n (leaving code stage) p alive set (h, k) =
    leaving_rings n code p (h.alarmed set) set h.there stage k
ring-IsKept n (ended code) p alive set h = absurd (ground arith)
ring-IsKept n opening_log p alive set (h, s) = absurd (ground (arith, set, h.alarm_is))
ring-IsKept n making_fifo p alive set (h, s) = absurd (ground (arith, set, h.alarm_is))
ring-IsKept n opening_srv p alive set (h, s) = absurd (ground (arith, set, h.alarm_is))
ring-IsKept n writing_request p alive set (h, s) = absurd (ground (arith, set, h.alarm_is))
ring-IsKept n setting_alarm p alive set (h, s) = absurd (ground (arith, set, h.alarm_is))
ring-IsKept n logging_reply p alive set (h, s) = absurd (ground (arith, set, h.alarm_is))
ring-IsKept n showing_reply p alive set (h, s, last) = absurd (ground (arith, set, h.alarm_is))
ring-IsKept n marking_reply p alive set (h, s, last, shown) =
    absurd (ground (arith, set, h.alarm_is))
ring-IsKept n logging_request p alive set (h, s) =
    main_rings n p true false false 0 h s (λ _. omega arith) (λ e. absurd (ground (arith, e)))
ring-IsKept n marking_request p alive set (h, s) =
    main_rings n p true false false 1 h s (λ _. omega arith) (λ e. absurd (ground (arith, e)))
ring-IsKept n opening_fifo p alive set (h, s) =
    main_rings n p true false true 1 h s (λ _. omega arith) (λ _. refl)
ring-IsKept n marking_fifo p alive set (h, s) =
    main_rings n p true false true 1 h s (λ _. omega arith) (λ _. refl)
ring-IsKept n reading_reply p alive set (h, s) =
    main_rings n p true true true 1 h s (λ _. omega arith) (λ _. refl)
ring-IsKept n stopping_alarm p alive set (h, s) =
    main_rings n p true true true 1 h s (λ _. omega arith) (λ _. refl)
