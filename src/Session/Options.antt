-- ===== src/Session/Options.antt =====
-- The loop of `main` over the options. getopt_long is a parameter: what it gives, one option after
-- the other, and the arguments that are left behind the last one.
use rootsh.Base.{true, false, Option, some, List, [], ◌∷◌}
use rootsh.Text.{Bytes}
use rootsh.Session.State.{Session}
use rootsh.Session.Exec.{consume_remaining_args}

-- `command` comes with the arguments from the one before `optind` on.
pub data Choice : Type 0 where
  help version login no_logfile no_syslog : Choice
  user logfile logdir : Bytes → Choice
  command : List Bytes → Choice

-- The variables behind the loop; or those at the option for which `usage` or `version` is called,
-- and these do not return.
pub data Parsed : Type 0 where
  parsed : Option Bytes → Session → Parsed
  asked_help asked_version : Session → Parsed

-- The cases that set a variable.
unfoldable pub choose : Choice → Session → Session
choose login s = record s { use_login_shell = true }
choose (user name) s = record s { run_as_user = some name }
choose (logfile name) s = record s { user_log_file_name = some name }
choose (logdir dir) s = record s { user_log_file_dir = some dir }
choose no_logfile s = record s { settings = record s.settings { logtofile = false } }
choose no_syslog s = record s { settings = record s.settings { logtosyslog = false } }
choose other s = s

-- The loop; behind a command no argument is left, so that getopt_long gives no further option.
unfoldable pub read_options : List Choice → List Bytes → Option Bytes → Session → Parsed
unfolding choose consume_remaining_args
read_options [] rest commands s = parsed (consume_remaining_args rest commands) s
read_options (help ∷ choices) rest commands s = asked_help s
read_options (version ∷ choices) rest commands s = asked_version s
read_options (command args ∷ choices) rest commands s =
    parsed (consume_remaining_args args commands) s
read_options (choice ∷ choices) rest commands s =
    read_options choices rest commands (choose choice s)
