-- ===== src/User/Process/Ending.antt =====
-- The user's process ends (user_f/user.c), also when no other process answers.
use home_banking_system.Base.{
  subst, sym, ◌∙◌, ℕ, zero, suc, ◌≤◌, ◌≡◌, Bool, true, false, arith, Bool-cases, inl, inr, refl,
}
use home_banking_system.Types.{RetCode, rc_srv_timeout}
use home_banking_system.User.Process.{
  log_request, log_error, show_error, close_srv, close_user, unlink_fifo, Place, opening_log,
  making_fifo, opening_srv, writing_request, setting_alarm, logging_request, marking_request,
  opening_fifo, marking_fifo, reading_reply, stopping_alarm, logging_reply, showing_reply,
  marking_reply, leaving, ended, Process, Reply, close_user_fifo, close_fifos, report,
  exit_user_process, leave, advance, sigalarm_handler, waits, step_alone, left_alone, has_ended,
  Reached, start, answered, rang,
}
use home_banking_system.User.Process.Rank.{rank, alive_rank, advance-rank, ring-rank, course-rank}

-- Between the setting of the alarm and its end.
abbrev guarded : Place → Bool
guarded logging_request = true
guarded marking_request = true
guarded opening_fifo = true
guarded marking_fifo = true
guarded reading_reply = true
guarded stopping_alarm = true
guarded _ = false

advance_armed :
    (place : Place) (a : Reply) (p : Process)
    → has_ended place ≡ false
    → (guarded place ≡ true → p.alarm ≡ true)
    → guarded (advance place a p).place ≡ true
    → (advance place a p).alarm ≡ true
unfolding advance leave exit_user_process report close_fifos close_user_fifo
advance_armed opening_log a p alive set h = ground arith
advance_armed making_fifo a p alive set h = ground arith
advance_armed opening_srv a p alive set h = ground arith
advance_armed writing_request a p alive set h = ground arith
advance_armed setting_alarm a p alive set h = ground arith
advance_armed logging_request a p alive set h = ground arith
advance_armed marking_request a p alive set h = ground arith
advance_armed opening_fifo a p alive set h = ground arith
advance_armed marking_fifo a p alive set h = ground arith
advance_armed reading_reply a p alive set h = ground arith
advance_armed stopping_alarm a p alive set h = ground arith
advance_armed logging_reply a p alive set h = ground arith
advance_armed showing_reply a p alive set h = ground arith
advance_armed marking_reply a p alive set h = ground arith
advance_armed (leaving code log_request) a p alive set h = ground arith
advance_armed (leaving code log_error) a p alive set h = ground arith
advance_armed (leaving code show_error) a p alive set h = ground arith
advance_armed (leaving code close_srv) a p alive set h = ground arith
advance_armed (leaving code close_user) a p alive set h = ground arith
advance_armed (leaving code unlink_fifo) a p alive set h = ground arith
advance_armed (ended code) a p alive set h = absurd (ground arith)

exit_user_process-unguarded :
    (code : RetCode) (p : Process) → guarded (exit_user_process code p).place ≡ false
unfolding exit_user_process report close_fifos close_user_fifo
exit_user_process-unguarded code p = ground arith

course_armed : (k n : ℕ) (p : Process) → Reached k n p → guarded p.place ≡ true → p.alarm ≡ true
unfolding sigalarm_handler
course_armed _ _ _ start h = absurd (ground arith)
course_armed _ _ _ (answered k n p a course alive) h =
    advance_armed p.place a p alive (course_armed k n p course) h
course_armed _ _ _ (rang k n p course alive set) h =
    absurd (ground (arith, exit_user_process-unguarded rc_srv_timeout (record p { alarm = false })))

waits-guarded : (place : Place) → waits place ≡ true → guarded place ≡ true
unfolding waits
waits-guarded place h = ground arith

step_waits :
    (a : Reply) (p : Process)
    → waits p.place ≡ true
    → p.alarm ≡ true
    → step_alone a p ≡ sigalarm_handler p
unfolding step_alone
step_waits a p w set = rw (w, set) refl

step_goes : (a : Reply) (p : Process) → waits p.place ≡ false → step_alone a p ≡ advance p.place a p
unfolding step_alone
step_goes a p w = rw w refl

advance_ended :
    (place : Place) (a : Reply) (p : Process)
    → has_ended place ≡ true
    → (waits place ≡ false) × (advance place a p ≡ p)
unfolding advance waits
advance_ended (ended code) a p h = (refl, refl)
advance_ended opening_log a p h = absurd (ground arith)
advance_ended making_fifo a p h = absurd (ground arith)
advance_ended opening_srv a p h = absurd (ground arith)
advance_ended writing_request a p h = absurd (ground arith)
advance_ended setting_alarm a p h = absurd (ground arith)
advance_ended logging_request a p h = absurd (ground arith)
advance_ended marking_request a p h = absurd (ground arith)
advance_ended opening_fifo a p h = absurd (ground arith)
advance_ended marking_fifo a p h = absurd (ground arith)
advance_ended reading_reply a p h = absurd (ground arith)
advance_ended stopping_alarm a p h = absurd (ground arith)
advance_ended logging_reply a p h = absurd (ground arith)
advance_ended showing_reply a p h = absurd (ground arith)
advance_ended marking_reply a p h = absurd (ground arith)
advance_ended (leaving code stage) a p h = absurd (ground arith)

step_ended :
    (a : Reply) (p : Process) → has_ended p.place ≡ true → has_ended (step_alone a p).place ≡ true
step_ended a p h =
    let (w, same) = advance_ended p.place a p h in
    subst (λ q. has_ended q.place ≡ true) (sym (step_goes a p w ∙ same)) h

stays_ended :
    (j : ℕ) (answers : ℕ → Reply) (p : Process)
    → has_ended p.place ≡ true
    → has_ended (left_alone j answers p).place ≡ true
stays_ended zero answers p h = h
stays_ended (suc j) answers p h =
    stays_ended j answers (step_alone (answers j) p) (step_ended (answers j) p h)

alone_ends :
    (j k n : ℕ) (answers : ℕ → Reply) (p : Process)
    → Reached k n p
    → rank p ≤ j
    → has_ended (left_alone j answers p).place ≡ true
alone_ends zero k n answers p course low = elim (Bool-cases (has_ended p.place)) [
  | inl e ↦ e
  | inr alive ↦ absurd (omega (arith, alive_rank p.place alive))
]
alone_ends (suc j) k n answers p course low = elim (Bool-cases (has_ended p.place)) [
  | inl e ↦ stays_ended (suc j) answers p e
  | inr alive ↦ elim (Bool-cases (waits p.place)) [
    | inl w ↦
        let set = course_armed k n p course (waits-guarded p.place w) in
        subst (λ q. has_ended (left_alone j answers q).place ≡ true)
          (sym (step_waits (answers j) p w set))
          (alone_ends j (suc k) (suc n) answers (sigalarm_handler p) (rang k n p course alive set)
            (omega (arith, ring-rank p alive set)))
    | inr w ↦
        subst (λ q. has_ended (left_alone j answers q).place ≡ true)
          (sym (step_goes (answers j) p w))
          (alone_ends j (suc k) n answers (advance p.place (answers j) p)
            (answered k n p (answers j) course alive)
            (omega (arith, advance-rank p.place (answers j) p refl alive)))
  ]
]

-- From the opening of its log on, the user's process makes at most 28 steps, however the calls answer
-- and whenever the alarm comes; and it is never left waiting: from every state that it reaches, if no
-- other process ever opens its FIFO or writes a reply, it has ended within 28 further steps, the alarm
-- among them where it waits, however the calls that do not wait for another process answer.
pub course_ends :
    (k n : ℕ) (p : Process)
    → Reached k n p
    → (k ≤ 28) × ((answers : ℕ → Reply) → has_ended (left_alone 28 answers p).place ≡ true)
course_ends k n p course = (
  omega (arith, course-rank k n p course),
  λ answers. alone_ends 28 k n answers p course (omega (arith, course-rank k n p course)),
)
