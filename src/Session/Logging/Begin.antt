-- ===== src/Session/Logging/Begin.antt =====
-- `beginlogging`: the name of the log file, its opening, and the first lines of the log.
use Prim.Native.Nat.{bit_or}
use rootsh.Base.{
  ℕ, ◌+◌, ◌-◌, Bool, true, false, not, ◌&&◌, Option, none, some, [], ◌∷◌, ◌++◌, ◌==◌, if◌then◌else◌,
  take,
}
use rootsh.Text.{Bytes, codes, padded}
use rootsh.Config.File.{max_path_len}
use rootsh.Session.Calls.{System, open_append, fstat_fd, open_syslog, to_syslog, print_error}
use rootsh.Session.State.{
  Session, Action, pure, crash, gets, perform, call, modify, unit, when, ◌>>=◌, ◌>>◌, formatted,
}
use rootsh.Session.Logging.Output.{write_log, dologging}

-- `snprintf(buffer, size, ...)` as a C string.
abbrev pub snprintf : ℕ → Bytes → Bytes
snprintf size text = take (size - 1) text

-- `sizeof(logFileName) - 1`
abbrev pub name_size : ℕ
name_size = max_path_len - 9 - 1

-- "%s.%04d%02d%02d%02d%02d%02d.%05d"
unfoldable pub def_log_file_name : System → ℕ → Session → Bytes
def_log_file_name sys now s =
    let tm = sys.localtime now in
    snprintf name_size (
      s.user_name
      ++ (codes "."
          ++ (padded 4 (tm.year + 1900)
              ++ (padded 2 (tm.mon + 1)
                  ++ (padded 2 tm.mday
                      ++ (padded 2 tm.hour
                          ++ (padded 2 tm.min
                              ++ (padded 2 tm.sec ++ (codes "." ++ padded 5 sys.pid)))))))))

abbrev pub in_directory : Bytes → Bytes → Bytes
in_directory dir name = snprintf name_size (dir ++ (codes "/" ++ name))

-- A name from the user with no directory: absolute, or in the working directory.
unfoldable pub user_path : Bytes → Bytes
user_path [] = snprintf name_size (codes "./")
user_path (c ∷ name) =
    if c == b'/' then snprintf name_size (c ∷ name) else snprintf name_size (codes "./" ++ c ∷ name)

-- The branches on `userLogFileName` and `userLogFileDir`.
unfoldable pub standalone_name : Bytes → Bytes → Option Bytes → Option Bytes → Bytes
unfolding user_path
standalone_name logdir default (some name) (some dir) = in_directory dir name
standalone_name logdir default (some name) none = user_path name
standalone_name logdir default none (some dir) = in_directory dir default
standalone_name logdir default none none = in_directory logdir default

unfoldable pub choose_name : System → ℕ → Session → Bytes
unfolding standalone_name def_log_file_name
choose_name sys now s =
    let default = def_log_file_name sys now s in
    if s.standalone
    then standalone_name s.settings.logdir default s.user_log_file_name s.user_log_file_dir
    else in_directory s.settings.logdir default

abbrev pub or_empty : Option Bytes → Bytes
or_empty none = []
or_empty (some text) = text

-- `runAsUser ? runAsUser : getpwuid(getuid())->pw_name`
abbrev pub acting_user : System → Action Bytes
acting_user sys = gets (λ s. s.run_as_user) >>= λ user. elim user [
  | some name ↦ pure name
  | none ↦ elim sys.login_name [ some name ↦ pure name | none ↦ crash ]
]

abbrev login_prefix : Session → Bytes
login_prefix s = if s.isa_login_shell then codes "login " else []

abbrev opened_line : System → ℕ → Bytes → Session → Bytes
opened_line sys now user s =
    login_prefix s
    ++ (s.prog_name
        ++ (codes " session opened for "
            ++ (s.user_name
                ++ (codes " as "
                    ++ (user
                        ++ (codes " on "
                            ++ (or_empty sys.ttyname ++ (codes " at " ++ sys.ctime now))))))))

-- `perror(logFileName); return(0);`
abbrev pub fail_file : Action Bool
fail_file = gets (λ s. s.log_file_name) >>= λ name. call (print_error name) >> pure false

-- The first line of the file.
unfoldable pub note_start : System → ℕ → Bytes → Action Bool
note_start sys now user = do
  line ← gets (opened_line sys now user)
  text ← formatted line
  count ← write_log sys text
  elim count [ none ↦ fail_file | some _ ↦ pure true ]

-- The identity of the open file is kept.
unfoldable pub remember_identity : System → ℕ → ℕ → Bytes → Action Bool
unfolding note_start
remember_identity sys fd now user = perform (fstat_fd fd) (λ calls. sys.fstat calls fd) >>= λ found.
    elim found [
      | none ↦ fail_file
      | some st ↦
          modify (λ s. record s { log_inode = st.inode; log_dev = st.device })
          >> note_start sys now user
    ]

-- The block under `if (logtofile)`.
unfoldable pub open_log_file : System → Bytes → Action Bool
unfolding choose_name remember_identity
open_log_file sys user = do
  now ← gets (λ s. sys.time s.calls)
  name ← gets (choose_name sys now)
  modify (λ s. record s { log_file_name = name })
  fd ← perform (open_append name) (λ calls. sys.opened calls name)
  elim fd [
    | none ↦ fail_file
    | some n ↦ modify (λ s. record s { log_file = n }) >> remember_identity sys n now user
  ]

abbrev pub syslog_level : ℕ
syslog_level = bit_or 168 5

abbrev session_line : System → Bytes → Session → Bytes
session_line sys user s =
    s.user_name
    ++ (codes "="
        ++ (user
            ++ (codes ","
                ++ (or_empty sys.ttyname
                    ++ (codes ": logging new "
                        ++ (login_prefix s
                            ++ (codes "session ("
                                ++ (s.session_id
                                    ++ (if s.settings.logtofile
                                        then codes ") to " ++ s.log_file_name
                                        else codes ")")))))))))

-- `sizeof(sessionIdWithUid)`
abbrev id_size : ℕ
id_size = max_path_len + 11 + 10

-- The block under `if (logtosyslog)`.
unfoldable pub open_syslog_session : System → Bytes → Action (Unit {0})
open_syslog_session sys user = do
  ident ← gets (λ s.
      if s.settings.syslog_log_username
      then snprintf id_size (s.session_id ++ (codes ": " ++ s.user_name))
      else s.session_id)
  call (open_syslog ident)
  line ← gets (session_line sys user)
  call (to_syslog (record { level = syslog_level; text = line }))

unfoldable pub note_commands : System → Option Bytes → Action (Unit {0})
note_commands sys none = unit
note_commands sys (some commands) = do
  text ← formatted (codes "shell commands: " ++ (commands ++ codes "\n"))
  dologging sys text

-- Behind the block for the file.
unfoldable pub begin_syslog : System → Option Bytes → Bytes → Action Bool
unfolding open_syslog_session note_commands
begin_syslog sys commands user = do
  logtosyslog ← gets (λ s. s.settings.logtosyslog)
  when logtosyslog (open_syslog_session sys user)
  note_commands sys commands
  pure true

unfoldable pub begin_destinations : System → Option Bytes → Bytes → Bool → Action Bool
unfolding open_log_file begin_syslog
begin_destinations sys commands user false = begin_syslog sys commands user
begin_destinations sys commands user true = do
  opened ← open_log_file sys user
  if opened then begin_syslog sys commands user else pure false

unfoldable pub beginlogging : System → Option Bytes → Action Bool
unfolding begin_destinations
beginlogging sys commands = do
  user ← acting_user sys
  logtofile ← gets (λ s. s.settings.logtofile)
  logtosyslog ← gets (λ s. s.settings.logtosyslog)
  if not logtofile && not logtosyslog
      then call (print_error (codes "you cannot switch off both file and syslog logging\n"))
        >> pure false
      else begin_destinations sys commands user logtofile
