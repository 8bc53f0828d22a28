-- ===== src/Session/SetupTests.antt =====
-- Accounts and an environment that can be followed by hand, and the theorems on the shell there.
use rootsh.Base.{List, false, ◌≡◌, refl, true, inl, none, some, [], ◌∷◌, arith}
use rootsh.Text.{codes, equal}
use rootsh.Basename.{
  basename, basename_of_copy, slash_found, walk, cut_slashes, last_element, without_slashes,
}
use rootsh.Session.State.{Session, returned, crashed}
use rootsh.Session.Environment.{Environ, getenv, name_of}
use rootsh.Session.Setup.{
  Accounts, setupshell, shell_of_user, check_shell, replace_shell, default_shell, is_listed,
  is_self, setupusermode,
}
use rootsh.Session.SetupLaws.{
  IsCalled, Allowed, setupshell-Allowed, setupusermode-cleaned, setupusermode-own_clearenv,
  setupusermode-crashed,
}
use rootsh.Session.Exec.{exec_call, consume_remaining_args}
use rootsh.Session.ExecLaws.{exec_call-su, exec_call-shell}
use rootsh.Session.Options.{
  Choice, login, no_logfile, logfile, command, parsed, choose, read_options,
}
use rootsh.Session.OptionsLaws.{Obeys, read_options-Obeys}
use rootsh.Session.StartUp.{make_session_id, note_session, stands_alone}
use rootsh.Session.Logging.Begin.{choose_name}
use rootsh.Session.Sudo.{choose_name-sudo}
use rootsh.Session.Tests.{opened_session, quiet_system}

abbrev pub accounts : Accounts
accounts = record {
  effective_uid = 0;
  has_terminal = true;
  terminal_owner = some 0;
  entry_name = λ uid. some (some (codes "root"));
  entry_shell = λ name. some (some (codes "/bin/sh"));
  shells = codes "/bin/sh" ∷ codes "/usr/bin/rootsh" ∷ [];
}

abbrev pub environment : Environ
environment = record {
  entries = codes "HOME=/root" ∷ codes "TERM=vt100" ∷ codes "SHELL=/usr/bin/rootsh" ∷ [];
  terminated = true;
  saved = none;
  has_clearenv = true;
}

abbrev as_user : Session
as_user = record opened_session { run_as_user = some (codes "db") }

called : IsCalled opened_session (codes "rootsh")
called = inl refl

setupshell_runs :
    (setupshell accounts environment opened_session).0 ≡ returned (some (codes "/bin/bash"))
unfolding setupshell shell_of_user check_shell replace_shell default_shell is_listed is_self equal
    getenv name_of basename basename_of_copy slash_found walk cut_slashes last_element
    without_slashes
setupshell_runs = refl

consume_runs : consume_remaining_args (codes "ls" ∷ codes "-l" ∷ []) none ≡ some (codes "ls -l ")
unfolding consume_remaining_args
consume_runs = refl

setupshell-Allowed_example :
    Allowed accounts opened_session
      (setupshell accounts environment opened_session).2
      (codes "/usr/bin/rootsh")
      (codes "/bin/bash")
setupshell-Allowed_example =
    setupshell-Allowed accounts environment opened_session (codes "/bin/bash") b'/' b'r'
      (codes "usr/bin") (codes "ootsh") [] refl (ground arith) tt called setupshell_runs

setupusermode-cleaned_example :
    let (result, env, s) = setupusermode accounts environment as_user in
    (result ≡ returned true) × (env.entries ≡ codes "TERM=vt100" ∷ []) × (s ≡ as_user)
unfolding getenv equal
setupusermode-cleaned_example =
    setupusermode-cleaned accounts environment as_user (codes "db") (some (codes "/bin/sh"))
      (codes "vt100") refl (ground arith) refl refl refl refl

setupusermode-own_clearenv_example :
    (setupusermode accounts (record environment { has_clearenv = false }) as_user).0 ≡ crashed
unfolding getenv equal
setupusermode-own_clearenv_example =
    setupusermode-own_clearenv accounts (record environment { has_clearenv = false }) as_user
      (codes "db") (some (codes "/bin/sh")) (codes "vt100") refl (ground arith) refl refl refl refl

setupusermode-crashed_example :
    (setupusermode accounts (record environment { entries = [] }) as_user).0 ≡ crashed
unfolding getenv
setupusermode-crashed_example =
    setupusermode-crashed accounts (record environment { entries = [] }) as_user (codes "db")
      (some (codes "/bin/sh")) refl (ground arith) refl refl refl

exec_call-su_example :
    exec_call (codes "/bin/su") as_user (codes "/bin/bash") (some (codes "ls"))
    ≡ some (codes "/bin/su", codes "su" ∷ codes "db" ∷ codes "-c" ∷ codes "ls" ∷ [])
exec_call-su_example =
    exec_call-su (codes "/bin/su") as_user (some (codes "ls")) (codes "db") (codes "/bin/bash")
      (codes "bin") (codes "su") refl refl (ground arith)

exec_call-shell_example :
    exec_call
      (codes "/bin/su")
      (record opened_session { use_login_shell = true })
      (codes "/bin/bash")
      none
    ≡ some (codes "/bin/bash", codes "-bin/bash" ∷ [])
exec_call-shell_example =
    exec_call-shell (codes "/bin/su") (record opened_session { use_login_shell = true }) none
      (codes "bin") (codes "bash") refl (ground arith)

-- `rootsh -i -x -f log -c ls`
abbrev choices : List Choice
choices = login ∷ no_logfile ∷ logfile (codes "log") ∷ command (codes "ls" ∷ []) ∷ []

abbrev chosen_session : Session
chosen_session = record opened_session {
  use_login_shell = true;
  settings = record opened_session.settings { logtofile = false };
  user_log_file_name = some (codes "log");
}

read_options_runs :
    read_options choices [] none opened_session ≡ parsed (some (codes "ls ")) chosen_session
unfolding read_options choose consume_remaining_args
read_options_runs = refl

no_options_run : read_options [] [] none opened_session ≡ parsed none opened_session
unfolding read_options consume_remaining_args
no_options_run = refl

read_options-Obeys_example : Obeys choices opened_session chosen_session
read_options-Obeys_example =
    read_options-Obeys choices [] none (some (codes "ls ")) opened_session chosen_session
      read_options_runs

abbrev under_sudo : Environ
under_sudo = record environment { entries = codes "SUDO_USER=joe" ∷ environment.entries }

-- The options of `chosen_session`, and none.
choose_name-sudo_example :
    let alone =
      stands_alone (note_session (make_session_id 4711 opened_session.prog_name) under_sudo) in
    choose_name quiet_system 1000
      (record chosen_session { standalone = alone; user_name = codes "joe" })
    ≡ choose_name quiet_system 1000
        (record opened_session { standalone = alone; user_name = codes "joe" })
unfolding getenv equal
choose_name-sudo_example =
    choose_name-sudo quiet_system 1000 4711 under_sudo opened_session chosen_session opened_session
      (codes "joe") (codes "joe") choices [] [] [] (some (codes "ls ")) none refl read_options_runs
      no_options_run
