-- ===== src/User/Process.antt =====
-- user_f/user.c from the opening of the log on: the steps of `main` and of `exit_user_process`, and
-- SIGALRM, whose handler calls `exit_user_process` and does not return. A step is a call, with what the
-- code does on its answer, or the setting of a flag while the alarm is set. The process is one whose
-- FIFO's name fits into its array; the start of `main` (User/Arguments) is undefined for any other.
pub mod Rank
pub mod Ending
pub mod Records
mod Tests
use home_banking_system.Base.{
  ℕ, zero, suc, ◌+◌, ◌≡◌, Bool, true, false, ◌&&◌, not, List, [], ◌∷◌, if◌then◌else◌,
}
use home_banking_system.Types.{RetCode, rc_ok, rc_srv_down, rc_srv_timeout, rc_usr_down, rc_other}

-- The calls of `exit_user_process`.
pub data Leaving : Type 0 where
  log_request log_error show_error close_srv close_user unlink_fifo : Leaving

-- The step of `main` that comes next, that of `exit_user_process` for a code, or the end.
pub data Place : Type 0 where
  opening_log making_fifo opening_srv writing_request setting_alarm : Place
  logging_request marking_request opening_fifo marking_fifo reading_reply : Place
  stopping_alarm logging_reply showing_reply marking_reply : Place
  leaving : RetCode → Leaving → Place
  ended : RetCode → Place

-- A line of the log: the request, the server's reply, or a reply that the process makes itself.
pub data Entry : Type 0 where
  request reply : Entry
  error_reply : RetCode → Entry

-- The globals, what has been written to the log and to standard output, newest first, and which of the
-- descriptors and the FIFO are gone. `alarm` says that SIGALRM can come.
pub record Process : Type 0 where
  pub place : Place
  pub opened_user_fifo : Bool
  pub opened_srv_fifo : Bool
  pub logged_request : Bool
  pub logged_reply : Bool
  pub alarm : Bool
  pub logfile : List Entry
  pub stdout : List Entry
  pub srv_closed : Bool
  pub user_closed : Bool
  pub unlinked : Bool

-- How a call answers; `fails_exists` is a failure with EEXIST.
pub data Reply : Type 0 where
  succeeds fails fails_exists : Reply

abbrev pub ok : Reply → Bool
ok succeeds = true
ok _ = false

abbrev pub go : Place → Process → Process
go place p = record p { place = place }

-- A call whose failure is `exit(RC_OTHER)`.
abbrev pub or_other : Reply → Process → Process → Process
or_other a p done = if ok a then done else go (ended rc_other) p

-- `exit_user_process` from each of its guards on.
unfoldable pub close_user_fifo : RetCode → Process → Process
close_user_fifo code p =
    go (leaving code (if p.opened_user_fifo then close_user else unlink_fifo)) p

unfoldable pub close_fifos : RetCode → Process → Process
unfolding close_user_fifo
close_fifos code p =
    if p.opened_srv_fifo then go (leaving code close_srv) p else close_user_fifo code p

unfoldable pub report : RetCode → Process → Process
unfolding close_fifos
report code p = if p.logged_reply then close_fifos code p else go (leaving code log_error) p

unfoldable pub exit_user_process : RetCode → Process → Process
unfolding report
exit_user_process code p =
    if p.logged_request then report code p else go (leaving code log_request) p

-- A step of `exit_user_process`. What is closed or unlinked already cannot be so again.
unfoldable pub leave : RetCode → Leaving → Reply → Process → Process
unfolding report close_fifos close_user_fifo
leave code log_request a p = or_other a p (report code (record p { logfile = request ∷ p.logfile }))
leave code log_error a p =
    or_other a p
      (go (leaving code show_error) (record p { logfile = error_reply code ∷ p.logfile }))
leave code show_error a p =
    or_other a p (close_fifos code (record p { stdout = error_reply code ∷ p.stdout }))
leave code close_srv a p =
    if not p.srv_closed && ok a
    then close_user_fifo code (record p { srv_closed = true })
    else go (ended rc_other) p
leave code close_user a p =
    if not p.user_closed && ok a
    then go (leaving code unlink_fifo) (record p { user_closed = true })
    else go (ended rc_other) p
leave code unlink_fifo a p =
    if not p.unlinked && ok a
    then go (ended code) (record p { unlinked = true })
    else go (ended rc_other) p

-- A step of the process.
unfoldable pub advance : Place → Reply → Process → Process
unfolding exit_user_process leave
advance opening_log a p = or_other a p (go making_fifo p)
advance making_fifo fails p = go (ended rc_other) p
advance making_fifo a p = go opening_srv p
advance opening_srv a p =
    if ok a
    then go writing_request (record p { opened_srv_fifo = true })
    else exit_user_process rc_srv_down p
advance writing_request a p = or_other a p (go setting_alarm p)
advance setting_alarm a p = go logging_request (record p { alarm = true })
advance logging_request a p =
    or_other a p (go marking_request (record p { logfile = request ∷ p.logfile }))
advance marking_request a p = go opening_fifo (record p { logged_request = true })
advance opening_fifo a p = if ok a then go marking_fifo p else exit_user_process rc_usr_down p
advance marking_fifo a p = go reading_reply (record p { opened_user_fifo = true })
advance reading_reply a p = or_other a p (go stopping_alarm p)
advance stopping_alarm a p = go logging_reply (record p { alarm = false })
advance logging_reply a p =
    or_other a p (go showing_reply (record p { logfile = reply ∷ p.logfile }))
advance showing_reply a p = or_other a p (go marking_reply (record p { stdout = reply ∷ p.stdout }))
advance marking_reply a p = exit_user_process rc_ok (record p { logged_reply = true })
advance (leaving code stage) a p = leave code stage a p
advance (ended code) a p = p

-- The handler of SIGALRM, which comes once.
unfoldable pub sigalarm_handler : Process → Process
unfolding exit_user_process
sigalarm_handler p = exit_user_process rc_srv_timeout (record p { alarm = false })

abbrev pub has_ended : Place → Bool
has_ended (ended code) = true
has_ended _ = false

-- The calls that wait for another process: the opening of a FIFO for reading, until one opens it for
-- writing, and the reading of the reply. (The server's FIFO is opened with O_NONBLOCK.)
unfoldable pub waits : Place → Bool
waits opening_fifo = true
waits reading_reply = true
waits _ = false

-- A step of a process that no other one answers: where it waits, only the alarm goes on.
unfoldable pub step_alone : Reply → Process → Process
unfolding waits advance sigalarm_handler
step_alone a p =
    if waits p.place then (if p.alarm then sigalarm_handler p else p) else advance p.place a p

-- So many of these steps.
abbrev pub left_alone : ℕ → (ℕ → Reply) → Process → Process
left_alone zero answers p = p
left_alone (suc j) answers p = left_alone j answers (step_alone (answers j) p)

abbrev pub started : Process
started = record {
  place = opening_log;
  opened_user_fifo = false;
  opened_srv_fifo = false;
  logged_request = false;
  logged_reply = false;
  alarm = false;
  logfile = [];
  stdout = [];
  srv_closed = false;
  user_closed = false;
  unlinked = false;
}

-- So many steps lead from the start to a state, with so many alarms among them.
pub data Reached : ℕ → ℕ → Process → Type 0 where
  start : Reached 0 0 started
  answered :
      (k n : ℕ) (p : Process) (a : Reply)
      → Reached k n p
      → has_ended p.place ≡ false
      → Reached (suc k) n (advance p.place a p)
  rang :
      (k n : ℕ) (p : Process)
      → Reached k n p
      → has_ended p.place ≡ false
      → p.alarm ≡ true
      → Reached (suc k) (suc n) (sigalarm_handler p)
