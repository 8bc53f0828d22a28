-- ===== src/Session/Exec.antt =====
-- `consume_remaining_args` and `execShell`: the commands of the command line, and the call of execl.
-- SUCMD, the path of su, is set by the build and is a parameter. Allocation does not fail.
use rootsh.Base.{Bool, true, false, Option, none, some, List, [], ◌∷◌, ◌++◌, ◌==◌, if◌then◌else◌}
use rootsh.Text.{Bytes, codes}
use rootsh.Session.Calls.{execute, print_error}
use rootsh.Session.State.{Session, Action, crash, exit, gets, call, unit, ◌>>=◌, ◌>>◌}
use rootsh.Session.Logging.Begin.{or_empty}

-- The arguments from `optind` on, each with a space behind it.
unfoldable pub consume_remaining_args : List Bytes → Option Bytes → Option Bytes
consume_remaining_args [] shell_commands = shell_commands
consume_remaining_args (arg ∷ args) shell_commands =
    consume_remaining_args args (some (or_empty shell_commands ++ (arg ++ codes " ")))

-- `slash = strchr(dashShell, '/'); *slash = '-';`, with `none` for a write through the null pointer.
unfoldable pub dash_shell : Bytes → Option Bytes
dash_shell [] = none
dash_shell (c ∷ shell) = elim (dash_shell shell) [
  | none ↦ if c == b'/' then some (b'-' ∷ shell) else none
  | some dashed ↦ if c == b'/' then some (b'-' ∷ shell) else some (c ∷ dashed)
]

-- `strrchr(shell, '/') + 1`; there is none without a slash.
unfoldable pub behind_slash : Bytes → Option Bytes
behind_slash [] = none
behind_slash (c ∷ shell) = elim (behind_slash shell) [
  | none ↦ if c == b'/' then some shell else none
  | some name ↦ some name
]

abbrev pub command_arguments : Option Bytes → List Bytes
command_arguments none = []
command_arguments (some commands) = codes "-c" ∷ commands ∷ []

-- The arguments behind the name of the program, by user, login shell and commands.
unfoldable pub shell_arguments : Option Bytes → Bool → Option Bytes → List Bytes
shell_arguments (some user) true commands = codes "-" ∷ user ∷ command_arguments commands
shell_arguments (some user) false commands = user ∷ command_arguments commands
shell_arguments none true commands = command_arguments commands
shell_arguments none false commands = codes "-i" ∷ command_arguments commands

-- The name under which the program runs. `dashShell` is made for su too, though su does not get it.
unfoldable pub program_name : Option Bytes → Bool → Bytes → Option Bytes
unfolding dash_shell behind_slash
program_name none true shell = dash_shell shell
program_name none false shell = behind_slash shell
program_name (some user) false shell = behind_slash shell
program_name (some user) true shell = elim (dash_shell shell) [
  | none ↦ none
  | some dashed ↦ behind_slash shell
]

-- What is executed: su, or the shell.
unfoldable pub executed : Bytes → Option Bytes → Bytes → Bytes
executed sucmd none shell = shell
executed sucmd (some user) shell = sucmd

-- The path and the arguments of execl.
unfoldable pub with_name : Bytes → List Bytes → Option Bytes → Option (Bytes × List Bytes)
with_name path arguments none = none
with_name path arguments (some name) = some (path, name ∷ arguments)

-- The call of execl with its arguments; `none` where there is no slash to be found.
unfoldable pub exec_call : Bytes → Session → Bytes → Option Bytes → Option (Bytes × List Bytes)
unfolding program_name executed shell_arguments with_name
exec_call sucmd s shell commands =
    let path = executed sucmd s.run_as_user shell in
    with_name path (shell_arguments s.run_as_user s.use_login_shell commands)
      (program_name s.run_as_user s.use_login_shell path)

-- execl returns only if it fails; else the process goes on as the shell.
unfoldable pub after_exec : Bool → Action (Unit {0})
after_exec false = unit
after_exec true = gets (λ s. s.prog_name) >>= λ name. call (print_error name) >> exit 1

unfoldable pub run_call : Bool → Option (Bytes × List Bytes) → Action (Unit {0})
unfolding after_exec
run_call fails none = crash
run_call fails (some (path, arguments)) = call (execute path arguments) >> after_exec fails

unfoldable pub exec_shell : Bytes → Bool → Bytes → Option Bytes → Action (Unit {0})
unfolding exec_call run_call
exec_shell sucmd fails shell commands =
    gets (λ s. exec_call sucmd s shell commands) >>= run_call fails
