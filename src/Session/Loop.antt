-- ===== src/Session/Loop.antt =====
-- `signalHandler`, `setupSignalHandlers`, `finish` and the loop of `logSession`.
use rootsh.Base.{
  ℕ, zero, suc, true, false, not, ◌||◌, Option, none, some, List, [], ◌∷◌, ◌++◌, ◌==◌,
  if◌then◌else◌, length,
}
use rootsh.Text.{Bytes, codes, decimal}
use rootsh.Session.Modes.{new_tty}
use rootsh.Session.Calls.{
  Errno, System, Status, exited, signaled, unknown, Signal, sigint, sigquit, sigchld, sigwinch,
  unexpected, Ready, failed, ready, eintr, write_to, read_from, close_fd, set_tty, resize_pty,
  signal_child, wait_child, wait_ready, print_error,
}
use rootsh.Session.State.{
  Session, Action, pure, exit, out_of_fuel, gets, perform, call, modify, unit, when, ◌>>=◌, ◌>>◌,
  formatted,
}
use rootsh.Session.Logging.Output.{dologging, last_error}
use rootsh.Session.Logging.End.{endlogging}

-- The handler sets the flag of its signal.
unfoldable pub signal_handler : Signal → Session → Session
signal_handler sigint s = record s { sig_int = true }
signal_handler sigquit s = record s { sig_quit = true }
signal_handler sigchld s = record s { sig_chld = true }
signal_handler sigwinch s = record s { sig_winch = true }
signal_handler (unexpected n) s = record s {
  calls = print_error (codes "Unexpected signal received: " ++ (decimal n ++ codes "\n")) ∷ s.calls;
}

unfoldable pub handle_all : List Signal → Session → Session
unfolding signal_handler
handle_all [] s = s
handle_all (signal ∷ later) s = handle_all later (signal_handler signal s)

-- The signals that have come since the handler last ran.
abbrev pub handle_signals : System → Action (Unit {0})
handle_signals sys = gets (λ s. sys.signals s.calls) >>= λ signals. modify (handle_all signals)

-- The flags are cleared; the registration of the handler is left to the system.
unfoldable pub setup_signal_handlers : Session → Session
setup_signal_handlers s = record s {
  sig_winch = false;
  sig_int = false;
  sig_quit = false;
  sig_chld = false;
}

abbrev session_message : Session → Bytes → Bytes
session_message s what = codes "\n*** " ++ (s.prog_name ++ (codes " session " ++ what))

-- The message about the child, and the exit status.
unfoldable pub child_message : Session → Status → Bytes × ℕ
child_message s (exited status) = (session_message s (codes "ended by user\r\n"), status)
child_message s (signaled signal) =
    (session_message s (codes "interrupted by signal " ++ (decimal signal ++ codes "\r\n")), 1)
child_message s unknown = (session_message s (codes "ended for unknown reason\r\n"), 1)

unfoldable pub report_child : System → Option Status → Action ℕ
unfolding child_message
report_child sys none = do
  errno ← last_error sys
  text ← formatted (codes "Error getting status of child process: " ++ sys.strerror errno)
  dologging sys text
  pure 1
report_child sys (some status) = do
  line ← gets (λ s. (child_message s status).0)
  text ← formatted line
  dologging sys text
  code ← gets (λ s. (child_message s status).1)
  pure code

unfoldable pub restore_tty : System → Action (Unit {0})
restore_tty sys = gets (λ s. s.term_params) >>= λ modes. when sys.isatty (
    perform (set_tty modes) sys.set_tty >>= λ done.
    when (not done) (call (print_error (codes "tcsetattr: stdin"))))

unfoldable pub finish : System → ℕ → Action (Unit {0})
unfolding report_child restore_tty
finish sys fuel = do
  restore_tty sys
  status ← perform wait_child sys.wait
  code ← report_child sys status
  endlogging sys fuel
  pty ← gets (λ s. s.master_pty)
  call (close_fd pty)
  exit code

-- An error in the loop is logged, and ends the program.
unfoldable pub fail_errno : System → Bytes → Errno → Action (Unit {0})
fail_errno sys what errno = do
  text ← formatted (what ++ sys.strerror errno)
  dologging sys text
  exit 1

unfoldable pub fail_with : System → Bytes → Action (Unit {0})
unfolding fail_errno
fail_with sys what = last_error sys >>= fail_errno sys what

abbrev pub read_fd : System → ℕ → Action (Option Bytes)
read_fd sys fd = perform (read_from fd) (λ calls. sys.read calls fd)

abbrev pub write_fd : System → ℕ → Bytes → Action (Option ℕ)
write_fd sys fd buf = perform (write_to fd buf) (λ calls. sys.write calls fd buf)

-- The user's bytes have gone to the pty, all of them, or the program ends.
unfoldable pub check_passed : System → ℕ → Option ℕ → Action (Unit {0})
unfolding fail_with
check_passed sys size none = fail_with sys (codes "write - pty: ")
check_passed sys size (some n) = if n == size then unit else fail_with sys (codes "write - pty: ")

unfoldable pub pass_input : System → Option Bytes → Action (Unit {0})
unfolding check_passed
pass_input sys none = fail_with sys (codes "read - stdin: ")
pass_input sys (some buf) = gets (λ s. s.master_pty) >>= λ pty.
    write_fd sys pty buf >>= λ count. check_passed sys (length buf) count

unfoldable pub read_stdin : System → Action (Unit {0})
unfolding pass_input
read_stdin sys = read_fd sys 0 >>= pass_input sys

unfoldable pub check_shown : System → Option ℕ → Action (Unit {0})
unfolding fail_with
check_shown sys none = fail_with sys (codes "write - stdout: ")
check_shown sys (some n) = unit

-- The shell's output is logged, then shown.
unfoldable pub show_output : System → Option Bytes → Action (Unit {0})
unfolding check_shown
show_output sys none = unit
show_output sys (some []) = unit
show_output sys (some (c ∷ cs)) =
    dologging sys (c ∷ cs) >> (write_fd sys 1 (c ∷ cs) >>= check_shown sys)

unfoldable pub read_pty : System → Action (Unit {0})
unfolding show_output
read_pty sys = gets (λ s. s.master_pty) >>= λ pty. read_fd sys pty >>= show_output sys

unfoldable pub handle_ready : System → Ready → Action (Unit {0})
unfolding read_stdin read_pty fail_errno
handle_ready sys (failed eintr) = unit
handle_ready sys (failed errno) = fail_errno sys (codes "select: ") errno
handle_ready sys (ready stdin pty) = when stdin (read_stdin sys) >> when pty (read_pty sys)

unfoldable pub handle_window : System → Action (Unit {0})
handle_window sys = do
  changed ← gets (λ s. s.sig_winch)
  when changed
      (call resize_pty >> call signal_child >> modify (λ s. record s { sig_winch = false }))

-- `finish` ends the program, so that the flags are not cleared behind it.
unfoldable pub handle_end : System → ℕ → Action (Unit {0})
unfolding finish
handle_end sys fuel = do
  ended ← gets (λ s. s.sig_int || s.sig_quit || s.sig_chld)
  when ended (
      finish sys fuel
      >> modify (λ s. record s { sig_int = false; sig_quit = false; sig_chld = false }))

-- The body of `for (;;)`. Signals come at any moment; what they set is looked at in `handle_window` and
-- `handle_end`, so that the handler runs at the return of `pselect` and before each of these.
unfoldable pub session_turn : System → ℕ → Action (Unit {0})
unfolding handle_ready handle_window handle_end handle_all
session_turn sys fuel = do
  state ← perform wait_ready sys.pselect
  handle_signals sys
  handle_ready sys state
  handle_signals sys
  handle_window sys
  handle_signals sys
  handle_end sys fuel

-- So many turns of the loop, which has no other end than the program's.
unfoldable pub session_loop : System → ℕ → ℕ → Action (Unit {0})
session_loop sys fuel zero = out_of_fuel
session_loop sys fuel (suc turns) = session_turn sys fuel >> session_loop sys fuel turns

-- `logSession`.
unfoldable pub log_session : System → ℕ → ℕ → Action (Unit {0})
unfolding session_loop setup_signal_handlers new_tty
log_session sys fuel turns = do
  modes ← gets (λ s. s.term_params)
  changed ← (if sys.isatty then perform (set_tty (new_tty modes)) sys.set_tty else pure true)
  when (not changed) (fail_with sys (codes "tcsetattr on stdin: "))
  modify setup_signal_handlers
  session_loop sys fuel turns
