-- ===== src/User/Process/Rank.antt =====
-- A measure of the user's process (user_f/user.c) that every step lowers.
use home_banking_system.Base.{ℕ, ◌+◌, ◌≤◌, ◌<◌, ◌≡◌, Bool, true, false, arith, refl}
use home_banking_system.Types.{RetCode, rc_srv_timeout}
use home_banking_system.User.Process.{
  Leaving, log_request, log_error, show_error, close_srv, close_user, unlink_fifo, Place,
  opening_log, making_fifo, opening_srv, writing_request, setting_alarm, logging_request,
  marking_request, opening_fifo, marking_fifo, reading_reply, stopping_alarm, logging_reply,
  showing_reply, marking_reply, leaving, ended, Process, Reply, close_user_fifo, close_fifos,
  report, exit_user_process, leave, advance, sigalarm_handler, has_ended, Reached, start, answered,
  rang,
}

abbrev pub leaving_rank : Leaving → ℕ
leaving_rank log_request = 6
leaving_rank log_error = 5
leaving_rank show_error = 4
leaving_rank close_srv = 3
leaving_rank close_user = 2
leaving_rank unlink_fifo = 1

-- The steps that are left at most when no alarm comes, and 8 more as long as one can still be set.
abbrev pub place_rank : Place → ℕ
place_rank opening_log = 28
place_rank making_fifo = 27
place_rank opening_srv = 26
place_rank writing_request = 25
place_rank setting_alarm = 24
place_rank logging_request = 15
place_rank marking_request = 14
place_rank opening_fifo = 13
place_rank marking_fifo = 12
place_rank reading_reply = 11
place_rank stopping_alarm = 10
place_rank logging_reply = 9
place_rank showing_reply = 8
place_rank marking_reply = 7
place_rank (leaving code stage) = leaving_rank stage
place_rank (ended code) = 0

abbrev pub if_set : Bool → ℕ
if_set true = 8
if_set false = 0

abbrev pub rank : Process → ℕ
rank p = place_rank p.place + if_set p.alarm

pub exit_user_process-rank :
    (code : RetCode) (p : Process) → rank (exit_user_process code p) ≤ 6 + if_set p.alarm
unfolding exit_user_process report close_fifos close_user_fifo
exit_user_process-rank code p = ground arith

pub advance-rank :
    (place : Place) (a : Reply) (p : Process)
    → p.place ≡ place
    → has_ended place ≡ false
    → rank (advance place a p) < rank p
unfolding advance leave exit_user_process report close_fifos close_user_fifo
advance-rank opening_log a p e alive = ground arith
advance-rank making_fifo a p e alive = ground arith
advance-rank opening_srv a p e alive = ground arith
advance-rank writing_request a p e alive = ground arith
advance-rank setting_alarm a p e alive = ground arith
advance-rank logging_request a p e alive = ground arith
advance-rank marking_request a p e alive = ground arith
advance-rank opening_fifo a p e alive = ground arith
advance-rank marking_fifo a p e alive = ground arith
advance-rank reading_reply a p e alive = ground arith
advance-rank stopping_alarm a p e alive = ground arith
advance-rank logging_reply a p e alive = ground arith
advance-rank showing_reply a p e alive = ground arith
advance-rank marking_reply a p e alive = ground arith
advance-rank (leaving code log_request) a p e alive = ground arith
advance-rank (leaving code log_error) a p e alive = ground arith
advance-rank (leaving code show_error) a p e alive = ground arith
advance-rank (leaving code close_srv) a p e alive = ground arith
advance-rank (leaving code close_user) a p e alive = ground arith
advance-rank (leaving code unlink_fifo) a p e alive = ground arith
advance-rank (ended code) a p e alive = absurd (ground arith)

pub alive_rank : (place : Place) → has_ended place ≡ false → 0 < place_rank place
alive_rank place alive = ground arith

pub ring-rank :
    (p : Process) → has_ended p.place ≡ false → p.alarm ≡ true → rank (sigalarm_handler p) < rank p
unfolding sigalarm_handler
ring-rank p alive set = omega (
  arith,
  exit_user_process-rank rc_srv_timeout (record p { alarm = false }),
  alive_rank p.place alive,
  eight p.alarm set,
)
  where
    eight : (b : Bool) → b ≡ true → if_set b ≡ 8
    eight b e = ground arith

pub course-rank : (k n : ℕ) (p : Process) → Reached k n p → k + rank p ≤ 28
course-rank _ _ _ start = omega arith
course-rank _ _ _ (answered k n p a course alive) =
    omega (arith, course-rank k n p course, advance-rank p.place a p refl alive)
course-rank _ _ _ (rang k n p course alive set) =
    omega (arith, course-rank k n p course, ring-rank p alive set)
