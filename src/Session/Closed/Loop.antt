-- ===== src/Session/Closed/Loop.antt =====
-- The loop of `logSession` is in every closed class that has the steps in which the user's bytes are
-- passed on and the shell's bytes are shown.
use rootsh.Base.{
  ℕ, zero, suc, refl, true, false, not, Option, none, some, [], ◌∷◌, ◌++◌, ◌==◌, length,
}
use rootsh.Text.{Bytes, codes}
use rootsh.Session.Calls.{System, Errno, eexist, eisdir, eintr, Status, Ready, ready, failed}
use rootsh.Session.State.{Action, exit, modify, out_of_fuel, ◌>>=◌}
use rootsh.Session.Loop.{
  handle_signals, setup_signal_handlers, report_child, restore_tty, finish, fail_errno, fail_with,
  check_passed, pass_input, read_fd, read_stdin, check_shown, show_output, read_pty, handle_ready,
  handle_window, handle_end, session_turn, session_loop, log_session,
}
use rootsh.Session.Closed.{Closed, on_call, on_when, on_if, on_formatted, on_dologging}
use rootsh.Session.Closed.End.{Ends, on_endlogging}

-- What a turn of the loop does before it looks for the session's end.
pub record Interacts (sys : System) (K : (A : Type 0) → Action A → Type 0) : Type 1 where
  pub on_exit : {A : Type 0} (status : ℕ) → K _ (exit {A = A} status)
  pub on_stdin :
      K _ (pass_input sys none)
      → ((size : ℕ) (count : Option ℕ) → K _ (check_passed sys size count))
      → K _ (read_stdin sys)
  pub on_pty : ((count : Option ℕ) → K _ (check_shown sys count)) → K _ (read_pty sys)
  pub on_window : K _ (modify (λ s. record s { sig_winch = false }))

-- The same, where every reading is in the class.
pub record Exchanges (sys : System) (K : (A : Type 0) → Action A → Type 0) : Type 1 where
  pub on_exit : {A : Type 0} (status : ℕ) → K _ (exit {A = A} status)
  pub on_read : (fd : ℕ) → K _ (read_fd sys fd)
  pub on_passed :
      (buf : Bytes)
      → ((count : Option ℕ) → K _ (check_passed sys (length buf) count))
      → K _ (pass_input sys (some buf))
  pub on_shown :
      (c : ℕ) (cs : Bytes)
      → ((count : Option ℕ) → K _ (check_shown sys count))
      → K _ (show_output sys (some (c ∷ cs)))
  pub on_window : K _ (modify (λ s. record s { sig_winch = false }))

module _ {K : (A : Type 0) → Action A → Type 0} (sys : System) (k : Closed sys K)
    (x : Exchanges sys K) where
  on_pass_input :
      K _ (pass_input sys none)
      → ((size : ℕ) (count : Option ℕ) → K _ (check_passed sys size count))
      → (buf : Option Bytes) → K _ (pass_input sys buf)
  on_pass_input wrong checked none = wrong
  on_pass_input wrong checked (some buf) = x.on_passed buf (checked (length buf))

  on_show_output :
      ((count : Option ℕ) → K _ (check_shown sys count))
      → (block : Option Bytes) → K _ (show_output sys block)
  unfolding show_output
  on_show_output checked none = k.on_pure tt
  on_show_output checked (some []) = k.on_pure tt
  on_show_output checked (some (c ∷ cs)) = x.on_shown c cs checked

  pub interacting : Interacts sys K
  unfolding read_stdin read_pty
  interacting = record {
    on_exit = x.on_exit;
    on_stdin = λ wrong checked. k.on_bind (x.on_read 0) (on_pass_input wrong checked);
    on_pty = λ checked.
        k.on_bind (k.on_gets _) (λ pty. k.on_bind (x.on_read pty) (on_show_output checked));
    on_window = x.on_window;
  }

module _ {K : (A : Type 0) → Action A → Type 0} (sys : System) (k : Closed sys K) where
  pub on_report_child : (status : Option Status) → K _ (report_child sys status)
  unfolding report_child
  on_report_child none = k.on_bind (k.on_gets _) (λ errno.
      k.on_bind
        (on_formatted sys k (codes "Error getting status of child process: " ++ sys.strerror errno))
        (λ text. k.on_bind (on_dologging sys k text) (λ _. k.on_pure 1)))
  on_report_child (some status) = k.on_bind (k.on_gets _) (λ line.
      k.on_bind (on_formatted sys k line) (λ text.
        k.on_bind (on_dologging sys k text)
          (λ _. k.on_bind (k.on_gets _) (λ code. k.on_pure code))))

  pub on_restore_tty : K _ (restore_tty sys)
  unfolding restore_tty
  on_restore_tty = k.on_bind (k.on_gets (λ s. s.term_params)) (λ modes.
      on_when sys k (sys.isatty) (
        k.on_bind (k.on_perform _ _ refl)
          (λ done. on_when sys k (not done) (on_call sys k _ refl))))

module _ {K : (A : Type 0) → Action A → Type 0} (sys : System) (k : Closed sys K)
    (i : Interacts sys K) where
  on_fail_errno : (what : Bytes) (errno : Errno) → K _ (fail_errno sys what errno)
  unfolding fail_errno
  on_fail_errno what errno =
      k.on_bind (on_formatted sys k (what ++ sys.strerror errno))
        (λ text. k.on_bind (on_dologging sys k text) (λ _. i.on_exit 1))

  pub on_fail_with : (what : Bytes) → K _ (fail_with sys what)
  unfolding fail_with
  on_fail_with what = k.on_bind (k.on_gets _) (on_fail_errno what)

  on_check_passed : (size : ℕ) (count : Option ℕ) → K _ (check_passed sys size count)
  unfolding check_passed
  on_check_passed size none = on_fail_with (codes "write - pty: ")
  on_check_passed size (some n) =
      on_if sys k (n == size) (k.on_pure tt) (on_fail_with (codes "write - pty: "))

  on_failed_input : K _ (pass_input sys none)
  unfolding pass_input
  on_failed_input = on_fail_with (codes "read - stdin: ")

  on_read_stdin : K _ (read_stdin sys)
  on_read_stdin = i.on_stdin on_failed_input on_check_passed

  on_check_shown : (count : Option ℕ) → K _ (check_shown sys count)
  unfolding check_shown
  on_check_shown none = on_fail_with (codes "write - stdout: ")
  on_check_shown (some n) = k.on_pure tt

  on_read_pty : K _ (read_pty sys)
  on_read_pty = i.on_pty on_check_shown

  pub on_handle_ready : (state : Ready) → K _ (handle_ready sys state)
  unfolding handle_ready
  on_handle_ready (failed eintr) = k.on_pure tt
  on_handle_ready (failed eexist) = on_fail_errno (codes "select: ") eexist
  on_handle_ready (failed eisdir) = on_fail_errno (codes "select: ") eisdir
  on_handle_ready (failed (Errno.other n)) = on_fail_errno (codes "select: ") (Errno.other n)
  on_handle_ready (ready stdin pty) =
      k.on_bind (on_when sys k stdin on_read_stdin) (λ _. on_when sys k pty on_read_pty)

  pub on_handle_window : K _ (handle_window sys)
  unfolding handle_window
  on_handle_window = k.on_bind (k.on_gets _) (λ changed.
      on_when sys k changed (
        k.on_bind (k.on_bind (on_call sys k _ refl) (λ _. on_call sys k _ refl))
          (λ _. i.on_window)))

module _ {K : (A : Type 0) → Action A → Type 0} (sys : System) (fuel : ℕ) (k : Closed sys K)
    (i : Interacts sys K) (w : Ends sys fuel K) where
  on_finish : K _ (finish sys fuel)
  unfolding finish
  on_finish = k.on_bind (on_restore_tty sys k) (λ _. k.on_bind (k.on_perform _ _ refl) (λ status.
      k.on_bind (on_report_child sys k status) (λ code. k.on_bind (on_endlogging sys k fuel w) (λ _.
        k.on_bind (k.on_gets _) (λ pty. k.on_bind (on_call sys k _ refl) (λ _. i.on_exit code))))))

  on_handle_end : K _ (handle_end sys fuel)
  unfolding handle_end
  on_handle_end =
      k.on_bind (k.on_gets _)
        (λ ended. on_when sys k ended (k.on_bind on_finish (λ _. w.on_cleared)))

  on_handle_signals : K _ (handle_signals sys)
  on_handle_signals = k.on_bind (k.on_gets _) w.on_handled

  -- A turn behind the call of `pselect`.
  pub on_turn :
      (state : Ready)
      → K _ (
          handle_signals sys >>= λ _. handle_ready sys state >>= λ _. handle_signals sys >>= λ _.
          handle_window sys >>= λ _. handle_signals sys >>= λ _. handle_end sys fuel)
  on_turn state = k.on_bind on_handle_signals (λ _. k.on_bind (on_handle_ready sys k i state) (λ _.
      k.on_bind on_handle_signals (λ _.
        k.on_bind (on_handle_window sys k i)
          (λ _. k.on_bind on_handle_signals (λ _. on_handle_end)))))

  pub on_session_turn : K _ (session_turn sys fuel)
  unfolding session_turn
  on_session_turn = k.on_bind (k.on_perform _ _ refl) on_turn

  on_session_loop :
      (out : K _ (out_of_fuel {A = Unit {0}})) (turns : ℕ) → K _ (session_loop sys fuel turns)
  unfolding session_loop
  on_session_loop out zero = out
  on_session_loop out (suc turns) = k.on_bind on_session_turn (λ _. on_session_loop out turns)

  pub on_log_session :
      (out : K _ (out_of_fuel {A = Unit {0}})) (turns : ℕ) → K _ (log_session sys fuel turns)
  unfolding log_session setup_signal_handlers
  on_log_session out turns = k.on_bind (k.on_gets (λ s. s.term_params)) (λ modes.
      k.on_bind (on_if sys k sys.isatty (k.on_perform _ _ refl) (k.on_pure true)) (λ changed.
        k.on_bind
          (on_when sys k (not changed) (on_fail_with sys k i (codes "tcsetattr on stdin: ")))
          (λ _. k.on_bind w.on_set_up (λ _. on_session_loop out turns))))
