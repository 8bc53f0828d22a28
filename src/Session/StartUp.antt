-- ===== src/Session/StartUp.antt =====
-- The first part of `main`: the compiled values, the configuration, the name of the program, the
-- options, and the session's name in the environment.
use rootsh.Base.{
  ℕ, ◌+◌, ◌-◌, Bool, true, false, Option, none, some, List, [], ◌∷◌, ◌++◌, ltb, ◌==◌, if◌then◌else◌,
  length, take,
}
use rootsh.Text.{Bytes, codes, padded, decimal}
use rootsh.Basename.{basename}
use rootsh.Config.File.{
  max_path_len, Message, skipping, logdir_too_long, defaultshell_too_long, ReadResult,
  read_config_file,
}
use rootsh.Session.Calls.{System, print_error}
use rootsh.Session.State.{Action, pure, exit, crash, gets, modify, call, when, unit, ◌>>=◌, ◌>>◌}
use rootsh.Session.Logging.Begin.{snprintf}
use rootsh.Session.Environment.{Environ, getenv, putenv}
use rootsh.Session.Setup.{Accounts}
use rootsh.Session.Options.{Choice, Parsed, parsed, asked_help, asked_version, read_options}
use rootsh.Session.Usage.{Build, version, usage}
use rootsh.Session.Pty.{Terminals}

-- What the program is started on. `choices` and `rest` are what getopt_long gives for `argv`, and
-- `exec_fails` says that execl returns.
pub record Machine : Type 0 where
  pub system : System
  pub accounts : Accounts
  pub terminals : Terminals
  pub config : Option Bytes
  pub argv0 : Bytes
  pub choices : List Choice
  pub rest : List Bytes
  pub environment : Environ
  pub exec_fails : Bool

abbrev pub fail : Action (Unit {0})
fail = exit 1

too_long : Bytes → Bytes → Bytes → Bytes
too_long origin what value =
    origin
    ++ (codes " value for "
        ++ (what
            ++ (codes ": '"
                ++ (value
                    ++ (codes "' is longer than max path len: "
                        ++ (decimal max_path_len ++ codes "\n"))))))

-- The beginning, up to `readConfigFile`.
unfoldable pub check_compiled : Bytes → Bytes → Action (Unit {0})
unfolding too_long
check_compiled what value =
    when (ltb max_path_len (length value))
      (call (print_error (too_long (codes "Compiled") what value)) >> fail)

unfoldable pub message_text : Message → Bytes
unfolding too_long
message_text (skipping line) =
    codes "Error parsing config file line '" ++ (line ++ codes "', skipping\n")
message_text (logdir_too_long value) = too_long (codes "Configured") (codes "logdir") value
message_text (defaultshell_too_long value) =
    too_long (codes "Configured") (codes "defaultshell") value

unfoldable pub print_messages : List Message → Action (Unit {0})
unfolding message_text
print_messages [] = unit
print_messages (m ∷ messages) = call (print_error (message_text m)) >> print_messages messages

unfoldable pub after_config : ReadResult → Action (Unit {0})
unfolding print_messages
after_config ReadResult.crashed = crash
after_config (ReadResult.returned done settings messages) = do
  print_messages messages
  modify (λ s. record s { settings = settings })
  if done
      then unit
      else call (print_error (codes "Error setting up configuration options\n")) >> fail

unfoldable pub start_up : Build → Machine → Action (Unit {0})
unfolding check_compiled after_config read_config_file
start_up build m = do
  check_compiled (codes "logdir") build.logdir
  modify (λ s. record s { settings = record s.settings { logdir = build.logdir } })
  check_compiled (codes "default shell") build.default_shell
  modify (λ s. record s { settings = record s.settings { defaultshell = build.default_shell } })
  result ← gets (λ s. read_config_file s.settings m.config)
  after_config result
  modify (λ s. record s { prog_name = take (max_path_len - 1) (basename (some m.argv0)) })

-- What the loop over the options ends with.
unfoldable pub after_options : Build → Parsed → Action (Option Bytes)
unfolding version usage
after_options build (parsed commands t) = modify (λ s. t) >> pure commands
after_options build (asked_help t) = modify (λ s. t) >> usage
after_options build (asked_version t) = modify (λ s. t) >> version build

-- The loop over the options.
unfoldable pub parse_options : Build → Machine → Action (Option Bytes)
unfolding after_options read_options
parse_options build m = gets (read_options m.choices m.rest none) >>= after_options build

without_dash : Bytes → Bytes
without_dash [] = []
without_dash (c ∷ name) = if c == b'-' then name else c ∷ name

-- `sizeof(sessionId)`
abbrev pub session_id_size : ℕ
session_id_size = max_path_len + 11

unfoldable pub make_session_id : ℕ → Bytes → Bytes
unfolding without_dash
make_session_id pid prog_name =
    snprintf session_id_size (without_dash prog_name ++ (codes "[" ++ (padded 5 pid ++ codes "]")))

-- `putenv(sessionIdEnv)`
unfoldable pub note_session : Bytes → Environ → Environ
unfolding putenv
note_session session_id env = record env {
  entries =
      putenv env.entries
        (snprintf (session_id_size + 17) (codes "ROOTSH_SESSIONID=" ++ session_id));
}

unfoldable pub stands_alone : Environ → Bool
unfolding getenv
stands_alone env = elim (getenv env.entries (codes "SUDO_USER")) [ none ↦ true | some user ↦ false ]
