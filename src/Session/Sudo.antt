-- ===== src/Session/Sudo.antt =====
-- The log file's name under sudo: `main` reads the options, notes the session's name in the environment
-- and looks there for SUDO_USER, and `beginlogging` makes the name.
use rootsh.Base.{ℕ, ◌≡◌, ◌≢◌, refl, sym, ◌∙◌, false, Option, none, some, List}
use rootsh.Text.{Bytes, codes}
use rootsh.Session.Calls.{System}
use rootsh.Session.State.{Session}
use rootsh.Session.Environment.{Environ, name_of, getenv}
use rootsh.Session.EnvironmentLaws.{note_session-other}
use rootsh.Session.StartUp.{make_session_id, note_session, stands_alone}
use rootsh.Session.Options.{Choice, parsed, read_options}
use rootsh.Session.OptionsLaws.{read_options-Obeys}
use rootsh.Session.Logging.Begin.{choose_name, def_log_file_name}

sudo_user : name_of (codes "SUDO_USER") ≡ codes "SUDO_USER"
unfolding name_of
sudo_user = refl

other_variable : codes "ROOTSH_SESSIONID" ≢ codes "SUDO_USER"
other_variable e = cc

stands_alone-set :
    (env : Environ) (invoker : Bytes)
    → getenv env.entries (codes "SUDO_USER") ≡ some invoker
    → stands_alone env ≡ false
unfolding stands_alone
stands_alone-set env invoker set = rw (stands_alone, set)

stands_alone-sudo :
    (pid : ℕ) (prog_name invoker : Bytes) (env : Environ)
    → getenv env.entries (codes "SUDO_USER") ≡ some invoker
    → stands_alone (note_session (make_session_id pid prog_name) env) ≡ false
stands_alone-sudo pid prog_name invoker env set =
    stands_alone-set (note_session (make_session_id pid prog_name) env) invoker
      (note_session-other pid prog_name (codes "SUDO_USER") env sudo_user other_variable ∙ set)

-- The name is made of the directory and the user, where the session does not stand alone.
choose_name-directory :
    (sys : System) (now : ℕ) (t u : Session) (user : Bytes)
    → t.settings.logdir ≡ u.settings.logdir
    → choose_name sys now (record t { standalone = false; user_name = user })
      ≡ choose_name sys now (record u { standalone = false; user_name = user })
unfolding choose_name def_log_file_name
choose_name-directory sys now t u user same = rw same refl

module _ (sys : System) (now pid : ℕ) (env : Environ) (s t u : Session) (user invoker : Bytes) where
  -- Where SUDO_USER is set, any two command lines that are read to their end give the log file the same
  -- name, at the same time and for the same user: no option has a part in it.
  pub choose_name-sudo :
      (choices others : List Choice) (rest left : List Bytes) (commands more : Option Bytes)
      → getenv env.entries (codes "SUDO_USER") ≡ some invoker
      → read_options choices rest none s ≡ parsed commands t
      → read_options others left none s ≡ parsed more u
      → let alone = stands_alone (note_session (make_session_id pid s.prog_name) env) in
        choose_name sys now (record t { standalone = alone; user_name = user })
        ≡ choose_name sys now (record u { standalone = alone; user_name = user })
  choose_name-sudo choices others rest left commands more set first second =
      let one = read_options-Obeys choices rest none commands s t first in
      let two = read_options-Obeys others left none more s u second in
      rw (stands_alone-sudo pid s.prog_name invoker env set)
        (choose_name-directory sys now t u user (one.directory ∙ sym two.directory))
