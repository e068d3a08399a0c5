-- ===== src/User/Process/Records.antt =====
-- What the user's process leaves in its log (user_f/user.c).
pub mod Steps
pub mod Late
pub mod Alarm
pub mod Whole
use home_banking_system.Base.{
  ℕ, suc, ◌+◌, ◌≤◌, ◌<◌, ◌≡◌, ◌≢◌, refl, Bool, true, false, List, [], ◌∷◌, arith, if◌then◌else◌,
  Bool-cases, ◌⊎◌, inl, inr,
}
use home_banking_system.Types.{RetCode, rc_ok, rc_srv_down, rc_srv_timeout, rc_usr_down, rc_other}
use home_banking_system.User.Process.{
  Leaving, log_request, log_error, show_error, close_srv, close_user, unlink_fifo, Place,
  opening_log, making_fifo, opening_srv, writing_request, setting_alarm, logging_request,
  marking_request, opening_fifo, marking_fifo, reading_reply, stopping_alarm, logging_reply,
  showing_reply, marking_reply, leaving, ended, Entry, request, reply, error_reply, Process, Reply,
  go, close_user_fifo, close_fifos, report, exit_user_process, leave, advance, sigalarm_handler,
  has_ended, Reached, start, answered, rang,
}

abbrev pub requests : List Entry → ℕ
requests [] = 0
requests (request ∷ es) = suc (requests es)
requests (e ∷ es) = requests es

abbrev pub replies : List Entry → ℕ
replies [] = 0
replies (request ∷ es) = replies es
replies (e ∷ es) = suc (replies es)

-- The newest line is the reply for the code that the process ends with.
abbrev pub IsLast : RetCode → List Entry → Type 0
IsLast rc_ok (reply ∷ es) = Unit
IsLast rc_ok es = ⊥
IsLast code (error_reply c ∷ es) = c ≡ code
IsLast code es = ⊥

abbrev pub Between : ℕ → ℕ → ℕ → Type 0
Between a b n = (a ≤ n) × (n ≤ b)

-- The request has been logged, and the reply, and the reply has been shown: once, or once more when the
-- alarm has come.
abbrev pub Asked : ℕ → Process → Type 0
Asked n p = Between 1 (1 + n) (requests p.logfile)

abbrev pub Told : ℕ → RetCode → List Entry → Type 0
Told n code es = Between 1 (1 + n) (replies es) × IsLast code es

abbrev pub Closed : Bool → Bool → Type 0
Closed opened closed = opened ≡ true → closed ≡ true

-- In `main`, where the alarm has not come and nothing has been closed.
pub record InMain (n : ℕ) (p : Process) (srv user logged alarm : Bool) (asked told : ℕ)
    : Type 0 where
  pub none_yet : n ≡ 0
  pub srv_is : p.opened_srv_fifo ≡ srv
  pub user_is : p.opened_user_fifo ≡ user
  pub logged_is : p.logged_request ≡ logged
  pub reply_is : p.logged_reply ≡ false
  pub alarm_is : p.alarm ≡ alarm
  pub asked_is : requests p.logfile ≡ asked
  pub told_is : replies p.logfile ≡ told
  pub there : p.unlinked ≡ false

-- In `exit_user_process`.
pub record Exiting (n : ℕ) (p : Process) (code : RetCode) : Type 0 where
  pub once : n ≤ 1
  pub proper : code ≢ rc_other
  pub alarmed : p.alarm ≡ true → (n ≡ 0) × (p.logged_request ≡ true) × (p.logged_reply ≡ false)
  pub there : p.unlinked ≡ false

abbrev pub Stage : ℕ → Process → RetCode → Leaving → Type 0
Stage n p code log_request =
    (requests p.logfile ≤ n)
    × (replies p.logfile ≡ 0)
    × (replies p.stdout ≡ 0)
    × (p.alarm ≡ false)
    × (p.logged_reply ≡ false)
    × (code ≢ rc_ok)
Stage n p code log_error =
    Asked n p × (replies p.logfile ≤ n) × (replies p.stdout ≤ n) × (code ≢ rc_ok)
Stage n p code show_error =
    Asked n p × Told n code p.logfile × (replies p.stdout ≤ n) × (code ≢ rc_ok)
Stage n p code close_srv = Asked n p × Told n code p.logfile × Told n code p.stdout
Stage n p code close_user =
    Asked n p × Told n code p.logfile × Told n code p.stdout × Closed p.opened_srv_fifo p.srv_closed
Stage n p code unlink_fifo =
    Asked n p
    × Told n code p.logfile
    × Told n code p.stdout
    × Closed p.opened_srv_fifo p.srv_closed
    × Closed p.opened_user_fifo p.user_closed

-- What a process that ends with a code of its own has done.
abbrev pub Completed : ℕ → RetCode → Process → Type 0
Completed n code p =
    (n ≤ 1)
    × Asked n p
    × Told n code p.logfile
    × Told n code p.stdout
    × Closed p.opened_srv_fifo p.srv_closed
    × Closed p.opened_user_fifo p.user_closed
    × (p.unlinked ≡ true)

abbrev pub Holds : ℕ → Process → Place → Type 0
Holds n p opening_log = InMain n p false false false false 0 0 × (replies p.stdout ≡ 0)
Holds n p making_fifo = InMain n p false false false false 0 0 × (replies p.stdout ≡ 0)
Holds n p opening_srv = InMain n p false false false false 0 0 × (replies p.stdout ≡ 0)
Holds n p writing_request = InMain n p true false false false 0 0 × (replies p.stdout ≡ 0)
Holds n p setting_alarm = InMain n p true false false false 0 0 × (replies p.stdout ≡ 0)
Holds n p logging_request = InMain n p true false false true 0 0 × (replies p.stdout ≡ 0)
Holds n p marking_request = InMain n p true false false true 1 0 × (replies p.stdout ≡ 0)
Holds n p opening_fifo = InMain n p true false true true 1 0 × (replies p.stdout ≡ 0)
Holds n p marking_fifo = InMain n p true false true true 1 0 × (replies p.stdout ≡ 0)
Holds n p reading_reply = InMain n p true true true true 1 0 × (replies p.stdout ≡ 0)
Holds n p stopping_alarm = InMain n p true true true true 1 0 × (replies p.stdout ≡ 0)
Holds n p logging_reply = InMain n p true true true false 1 0 × (replies p.stdout ≡ 0)
Holds n p showing_reply =
    InMain n p true true true false 1 1 × (replies p.stdout ≡ 0) × IsLast rc_ok p.logfile
Holds n p marking_reply =
    InMain n p true true true false 1 1
    × (replies p.stdout ≡ 1)
    × IsLast rc_ok p.logfile
    × IsLast rc_ok p.stdout
Holds n p (leaving code stage) = Exiting n p code × Stage n p code stage
Holds n p (ended code) = (code ≡ rc_other) ⊎ Completed n code p

abbrev pub IsKept : ℕ → Process → Type 0
IsKept n p = Holds n p p.place

pub leaves_at :
    (n : ℕ) (code : RetCode) (p : Process) (place : Place)
    → Exiting n p code
    → Exiting n (go place p) code
leaves_at n code p place h = record {
  once = h.once;
  proper = h.proper;
  alarmed = h.alarmed;
  there = h.there;
}

module _ (n : ℕ) (code : RetCode) (p : Process) (h : Exiting n p code) where
  pub close_user_fifo-IsKept :
      Asked n p
      → Told n code p.logfile
      → Told n code p.stdout
      → Closed p.opened_srv_fifo p.srv_closed
      → IsKept n (close_user_fifo code p)
  unfolding close_user_fifo
  close_user_fifo-IsKept asked told shown srv = go_on p.opened_user_fifo refl
    where
      go_on :
          (b : Bool)
          → p.opened_user_fifo ≡ b
          → IsKept n (go (leaving code (if b then close_user else unlink_fifo)) p)
      go_on true e = (leaves_at n code p _ h, (asked, told, shown, srv))
      go_on false e = (
        leaves_at n code p _ h,
        (asked, told, shown, srv, λ opened. absurd (ground (arith, e, opened))),
      )

  pub close_fifos-IsKept :
      Asked n p → Told n code p.logfile → Told n code p.stdout → IsKept n (close_fifos code p)
  unfolding close_fifos
  close_fifos-IsKept asked told shown = go_on p.opened_srv_fifo refl
    where
      go_on :
          (b : Bool)
          → p.opened_srv_fifo ≡ b
          → IsKept n (if b then go (leaving code close_srv) p else close_user_fifo code p)
      go_on true e = (leaves_at n code p _ h, (asked, told, shown))
      go_on false e =
          close_user_fifo-IsKept asked told shown (λ opened. absurd (ground (arith, e, opened)))

  -- The guard of the reply.
  pub report-IsKept :
      Asked n p
      → (p.logged_reply ≡ false → (replies p.logfile ≤ n) × (replies p.stdout ≤ n) × (code ≢ rc_ok))
      → (p.logged_reply ≡ true → Told n code p.logfile × Told n code p.stdout)
      → IsKept n (report code p)
  unfolding report
  report-IsKept asked untold told = go_on p.logged_reply refl
    where
      go_on :
          (b : Bool)
          → p.logged_reply ≡ b
          → IsKept n (if b then close_fifos code p else go (leaving code log_error) p)
      go_on true e = close_fifos-IsKept asked ((told e).0) ((told e).1)
      go_on false e = (leaves_at n code p _ h, (asked, (untold e).0, (untold e).1, (untold e).2))

  pub exit_user_process-IsKept :
      (p.logged_request ≡ false → Stage n p code log_request)
      → (p.logged_request ≡ true → Asked n p)
      → (p.logged_reply ≡ false → (replies p.logfile ≤ n) × (replies p.stdout ≤ n) × (code ≢ rc_ok))
      → (p.logged_reply ≡ true → Told n code p.logfile × Told n code p.stdout)
      → IsKept n (exit_user_process code p)
  unfolding exit_user_process
  exit_user_process-IsKept unasked asked untold told = go_on p.logged_request refl
    where
      go_on :
          (b : Bool)
          → p.logged_request ≡ b
          → IsKept n (if b then report code p else go (leaving code log_request) p)
      go_on true e = report-IsKept (asked e) untold told
      go_on false e = (leaves_at n code p _ h, unasked e)
