-- ===== src/Session/Setup.antt =====
-- `setupusername`, `setupshell`, `setupusermode`, `getDefaultshell`: who calls, and which shell to run.
-- SUCMD is defined, and HAS_ETC_SHELLS is 1.
use rootsh.Base.{
  ℕ, Bool, true, false, ◌&&◌, ◌||◌, Option, none, some, List, [], ◌∷◌, ◌++◌, ltb, ◌==◌,
  if◌then◌else◌, length,
}
use rootsh.Text.{Bytes, codes, equal}
use rootsh.Basename.{basename}
use rootsh.Session.Calls.{print_error}
use rootsh.Session.State.{Session, Outcome, returned, crashed}
use rootsh.Session.Environment.{Environ, getenv, putenv, saveenv, clearenv, restoreenv}

-- The account database: `none` for a missing entry, or for a field that is the null pointer.
pub record Accounts : Type 0 where
  pub effective_uid : ℕ
  pub has_terminal : Bool
  pub terminal_owner : Option ℕ
  pub entry_name : ℕ → Option (Option Bytes)
  pub entry_shell : Bytes → Option (Option Bytes)
  pub shells : List Bytes

abbrev Result : Type 0 → Type 0
Result A = Outcome A × Environ × Session

abbrev complain : Bytes → Session → Session
complain message s = record s { calls = print_error message ∷ s.calls }

abbrev unknown_user : Bytes
unknown_user = codes "i don't know who you are\n"

-- The name of the owner of the terminal.
unfoldable pub owner_name : Option (Option Bytes) → Session → Outcome (Option Bytes) × Session
owner_name none s = (crashed, s)
owner_name (some none) s = (returned none, complain unknown_user s)
owner_name (some (some name)) s = (returned (some name), s)

unfoldable pub ask_terminal : Accounts → Session → Outcome (Option Bytes) × Session
unfolding owner_name
ask_terminal acc s =
    if acc.has_terminal
    then elim acc.terminal_owner [
      | none ↦ (returned none, s)
      | some uid ↦ owner_name (acc.entry_name uid) s
    ]
    else (returned none, complain unknown_user s)

-- On the entry of the effective user.
unfoldable pub effective_name :
    Accounts → Option (Option Bytes) → Session → Outcome (Option Bytes) × Session
unfolding ask_terminal
effective_name acc none s = (crashed, s)
effective_name acc (some none) s = ask_terminal acc s
effective_name acc (some (some name)) s = (returned (some name), s)

unfoldable pub setupusername : Accounts → Session → Outcome (Option Bytes) × Session
unfolding effective_name
setupusername acc s = effective_name acc (acc.entry_name acc.effective_uid) s

unfoldable pub default_shell : Session → Option Bytes
default_shell s = if length s.settings.defaultshell == 0 then none else some s.settings.defaultshell

-- The loop over `getusershell`.
unfoldable pub is_listed : Bytes → List Bytes → Bool
unfolding equal
is_listed shell [] = false
is_listed shell (valid ∷ shells) = equal valid shell || is_listed shell shells

-- The shell's name is that of the program, or that behind the dash of a login shell.
unfoldable pub is_self : Bytes → Bytes → Bool
unfolding equal basename
is_self [] shell = equal (basename (some shell)) []
is_self (c ∷ name) shell =
    (c == b'-' && equal (basename (some shell)) name) || equal (basename (some shell)) (c ∷ name)

-- rootsh is the user's shell: the default shell is run, as a login shell.
unfoldable pub replace_shell : Option Bytes → Environ → Session → Result (Option Bytes)
unfolding putenv
replace_shell none env s = (crashed, env, s)
replace_shell (some shell) env s = (
  returned (some shell),
  record env { entries = putenv env.entries (codes "SHELL=" ++ shell) },
  record s { use_login_shell = true; isa_login_shell = true },
)

unfoldable pub check_shell : Accounts → Bytes → Environ → Session → Result (Option Bytes)
unfolding is_listed is_self replace_shell default_shell
check_shell acc shell env s =
    if is_listed shell acc.shells
    then if is_self s.prog_name shell
      then replace_shell (default_shell s) env s
      else (returned (some shell), env, s)
    else (returned none, env, complain (shell ++ codes " is not in /etc/shells\n") s)

-- On the entry of the user.
unfoldable pub entry_of_user :
    Accounts → Option (Option Bytes) → Environ → Session → Result (Option Bytes)
unfolding check_shell
entry_of_user acc none env s = (crashed, env, s)
entry_of_user acc (some none) env s =
    (returned none, env, complain (codes "could not determine a valid shell\n") s)
entry_of_user acc (some (some shell)) env s = check_shell acc shell env s

-- On the value of SHELL.
unfoldable pub shell_of_user : Accounts → Option Bytes → Environ → Session → Result (Option Bytes)
unfolding entry_of_user
shell_of_user acc (some shell) env s = check_shell acc shell env s
shell_of_user acc none env s = entry_of_user acc (acc.entry_shell s.user_name) env s

unfoldable pub setupshell : Accounts → Environ → Session → Result (Option Bytes)
unfolding shell_of_user getenv
setupshell acc env s = shell_of_user acc (getenv env.entries (codes "SHELL")) env s

-- `saveenv("TERM"); clearenv(); restoreenv();`
unfoldable pub clean_environment : Environ → Option Environ
unfolding saveenv clearenv restoreenv
clean_environment env = restoreenv (clearenv (saveenv (codes "TERM") env))

unfoldable pub become_user : Accounts → Bytes → Environ → Session → Result Bool
unfolding clean_environment
become_user acc user env s =
    if ltb 64 (length user)
    then (returned false, env, complain (codes "this username is too long. i don't trust you\n") s)
    else elim (acc.entry_shell user) [
      | none ↦
          (returned false, env, complain (codes "user " ++ (user ++ codes " does not exist\n")) s)
      | some entry ↦ elim (clean_environment env) [
        | none ↦ (crashed, env, s)
        | some cleaned ↦ (returned true, cleaned, s)
      ]
    ]

unfoldable pub setupusermode : Accounts → Environ → Session → Result Bool
unfolding become_user
setupusermode acc env s = elim s.run_as_user [
  | none ↦ (returned true, env, s)
  | some user ↦ become_user acc user env s
]
