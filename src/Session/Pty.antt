-- ===== src/Session/Pty.antt =====
-- `forkpty`, the program's own version: a pty pair, and a child process behind the slave. The result
-- is the pid, 0 in the child; the calls are those of the process in which it returns.
use rootsh.Base.{ℕ, zero, suc, Bool, true, false, Option, none, some, List, [], ◌∷◌, ◌++◌}
use rootsh.Text.{Bytes, codes}
use rootsh.Session.Modes.{Modes}
use rootsh.Session.Calls.{
  Call, System, print_error, close_fd, close_syslog, open_master, grant_pty, unlock_pty,
  fork_process, new_session, pty_name, open_file, push_module, set_modes, set_size, duplicate,
  get_tty,
}
use rootsh.Session.State.{
  Session, Action, pure, crash, gets, perform, call, modify, unit, when, ◌>>=◌, ◌>>◌,
}
pub mod Sides
pub mod Descriptors
pub mod Closing
pub mod Held
mod Tests

-- The system's calls for terminals, by the calls made before; `none` and `false` are -1 or the null
-- pointer. `modules` are the STREAMS modules of the build: ptem, ldterm, ttcompat, or none.
pub record Terminals : Type 0 where
  pub modes : List Call → Modes
  pub master : List Call → Option ℕ
  pub granted : List Call → Bool
  pub unlocked : List Call → Bool
  pub forked : List Call → Option ℕ
  pub slave_name : List Call → Option Bytes
  pub slave : List Call → Option ℕ
  pub modules : List Bytes
  pub pushed : List Call → Bool
  pub modes_set : List Call → Bool
  pub size_set : List Call → Bool
  pub master_device : Bytes

-- What `forkpty` returns, and what it stores behind `name`.
pub record Forked : Type 0 where
  pub pid : ℕ
  pub name : Option Bytes

abbrev pub close_all : List ℕ → Action (Unit {0})
close_all [] = unit
close_all (fd ∷ fds) = call (close_fd fd) >> close_all fds

-- `perror(what)`, the descriptors are closed, and -1 is returned.
unfoldable pub give_up : Bytes → List ℕ → Action (Option Forked)
give_up what fds = call (print_error what) >> close_all fds >> pure none

unfoldable pub attempt : Bool → Bytes → List ℕ → Action (Option Forked) → Action (Option Forked)
unfolding give_up
attempt true what fds next = next
attempt false what fds next = give_up what fds

-- Of the log, the child needs nothing.
unfoldable pub close_log_handles : Action (Unit {0})
close_log_handles = do
  logtofile ← gets (λ s. s.settings.logtofile)
  fd ← gets (λ s. s.log_file)
  when logtofile (call (close_fd fd))
  logtosyslog ← gets (λ s. s.settings.logtosyslog)
  when logtosyslog (call close_syslog)

abbrev wanted_name : Bool → Bytes → Option Bytes
wanted_name true name = some name
wanted_name false name = none

-- The slave becomes the standard input, output and error output.
unfoldable pub become_standard : ℕ → ℕ → Bool → Bytes → Action (Option Forked)
unfolding close_log_handles
become_standard master slave wanted name = do
  call (close_fd master)
  close_log_handles
  call (duplicate slave 0)
  call (duplicate slave 1)
  call (duplicate slave 2)
  call (close_fd slave)
  pure (some (record { pid = 0; name = wanted_name wanted name }))

-- `ioctl(slave, I_PUSH, ...)`, one module after the other.
unfoldable pub push_modules :
    Terminals → ℕ → ℕ → List Bytes → Action (Option Forked) → Action (Option Forked)
unfolding attempt
push_modules pt master slave [] next = next
push_modules pt master slave (module_name ∷ modules) next =
    perform (push_module slave module_name) pt.pushed >>= λ done.
    attempt done (codes "ioctl: " ++ module_name) (master ∷ slave ∷ [])
      (push_modules pt master slave modules next)

-- The child, on what opening the slave gave.
unfoldable pub with_slave : Terminals → Modes → Bool → ℕ → Bytes → Option ℕ → Action (Option Forked)
unfolding give_up push_modules attempt become_standard
with_slave pt modes wanted master name none = give_up name (master ∷ [])
with_slave pt modes wanted master name (some slave) = push_modules pt master slave pt.modules (
    perform (set_modes slave modes) pt.modes_set >>= λ modes_done.
    attempt modes_done (codes "tcsetattr: slave pty") (master ∷ slave ∷ []) (
      perform (set_size slave) pt.size_set >>= λ size_done.
      attempt size_done (codes "ioctl: slave winsz") (master ∷ slave ∷ [])
        (become_standard master slave wanted name)))

unfoldable pub in_child : Terminals → Modes → Bool → ℕ → Option Bytes → Action (Option Forked)
unfolding give_up with_slave
in_child pt modes wanted master none = give_up (codes "ptsname") (master ∷ [])
in_child pt modes wanted master (some name) =
    perform (open_file name) pt.slave >>= with_slave pt modes wanted master name

-- `*amaster = master; return(pid);`
abbrev pub return_pid : ℕ → ℕ → Option Bytes → Action (Option Forked)
return_pid master pid name =
    modify (λ s. record s { master_pty = master })
    >> pure (some (record { pid = pid; name = name }))

unfoldable pub in_parent : Terminals → Bool → ℕ → ℕ → Action (Option Forked)
unfolding give_up
in_parent pt false master pid = return_pid master pid none
in_parent pt true master pid = perform (pty_name master) pt.slave_name >>= λ name. elim name [
  | none ↦ give_up (codes "ptsname") (master ∷ [])
  | some n ↦ return_pid master pid (some n)
]

-- Behind `fork`.
unfoldable pub after_fork : Terminals → Modes → Bool → ℕ → Option ℕ → Action (Option Forked)
unfolding give_up in_child in_parent
after_fork pt modes wanted master none = give_up (codes "fork in forkpty") (master ∷ [])
after_fork pt modes wanted master (some zero) =
    call new_session
    >> (perform (pty_name master) pt.slave_name >>= in_child pt modes wanted master)
after_fork pt modes wanted master (some (suc pid)) = in_parent pt wanted master (suc pid)

unfoldable pub with_master : Terminals → Modes → Bool → Option ℕ → Action (Option Forked)
unfolding give_up attempt after_fork
with_master pt modes wanted none = give_up pt.master_device []
with_master pt modes wanted (some master) = perform (grant_pty master) pt.granted >>= λ granted.
    attempt granted (codes "grantpt") (master ∷ []) (
      perform (unlock_pty master) pt.unlocked >>= λ unlocked.
      attempt unlocked (codes "unlockpt") (master ∷ [])
        (perform fork_process pt.forked >>= after_fork pt modes wanted master))

-- `termp`; the modes of the calling terminal where it is the null pointer.
abbrev pub modes_for : Terminals → Option Modes → Action Modes
modes_for pt (some modes) = pure modes
modes_for pt none = perform get_tty pt.modes

-- `winp == NULL` is followed by a write through it. `wanted` says that `name` is no null pointer.
unfoldable pub forkpty : Terminals → Option Modes → Bool → Bool → Action (Option Forked)
unfolding with_master
forkpty pt termp false wanted = modes_for pt termp >> crash
forkpty pt termp true wanted =
    modes_for pt termp >>= λ modes. perform open_master pt.master >>= with_master pt modes wanted
