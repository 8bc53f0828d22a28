-- ===== src/Session/Logging/End.antt =====
-- `endlogging`: the last line of the log, and what became of the log file.
use rootsh.Base.{
  ℕ, ◌-◌, Bool, true, false, not, ◌&&◌, Option, none, some, [], ◌∷◌, ◌++◌, ltb, ◌==◌, if◌then◌else◌,
  length,
}
use rootsh.Text.{Bytes, codes}
use rootsh.Config.File.{max_path_len}
use rootsh.Session.Calls.{
  System, Stat, stat_path, fstat_fd, unlink_path, rmdir_path, rename_path, close_fd, close_syslog,
  to_syslog, print_error,
}
use rootsh.Session.State.{
  Session, Action, pure, crash, gets, perform, call, modify, when, ◌>>=◌, ◌>>◌, formatted,
}
use rootsh.Session.Logging.Output.{write_log, dologging, send_syslog, recoverfile}
use rootsh.Session.Logging.Begin.{snprintf, or_empty, syslog_level}

-- `*progName == '-' ? progName + 1 : progName`
abbrev pub plain_name : Bytes → Bytes
plain_name [] = []
plain_name (c ∷ name) = if c == b'-' then name else c ∷ name

abbrev pub filehandle_deleted : Bytes
filehandle_deleted = codes "*** THIS FILEHANDLE HAS BEEN DELETED ***\r\n"

abbrev pub file_deleted : Bytes
file_deleted = codes "*** USER TRIED TO DELETE THIS FILE ***\r\n"

abbrev pub file_recreated : Bytes
file_recreated = codes "*** USER TRIED TO DELETE AND RECREATE THIS FILE ***\r\n"

abbrev pub fstat_log : System → Action (Option Stat)
fstat_log sys = gets (λ s. s.log_file) >>= λ fd. perform (fstat_fd fd) (λ calls. sys.fstat calls fd)

-- Another file has the name of the log: it is removed.
unfoldable pub remove_impostor : System → Bytes → Action (Unit {0})
remove_impostor sys name = do
  unlinked ← perform (unlink_path name) (λ calls. sys.unlink calls name)
  when (not unlinked) (call (rmdir_path name))

-- The open file is asked for once more.
unfoldable pub check_handle : Option Stat → Action (Option Bytes)
check_handle none = pure (some filehandle_deleted)
check_handle (some st) = pure none

-- A file with the name was found; is it the one that was opened?
unfoldable pub compare_identity : System → Bytes → Bool → Action (Option Bytes)
unfolding remove_impostor check_handle
compare_identity sys name true = fstat_log sys >>= check_handle
compare_identity sys name false = remove_impostor sys name >> pure (some file_recreated)

unfoldable pub missing_name : Option Stat → Action (Option Bytes)
missing_name none = pure (some filehandle_deleted)
missing_name (some st) = pure (some file_deleted)

unfoldable pub examine_name : System → Bytes → Option Stat → Action (Option Bytes)
unfolding compare_identity missing_name
examine_name sys name none = fstat_log sys >>= missing_name
examine_name sys name (some st) = do
  same ← gets (λ s. s.log_inode == st.inode && s.log_dev == st.device)
  compare_identity sys name same

-- The message in `msgbuf`, if there is one: traces of manipulation.
unfoldable pub examine : System → Action (Option Bytes)
unfolding examine_name
examine sys = do
  name ← gets (λ s. s.log_file_name)
  found ← perform (stat_path name) (λ calls. sys.stat calls name)
  examine_name sys name found

-- `strcat(logFileName, ".tampered")` in its buffer of MAXPATHLEN - 9 bytes.
unfoldable pub append_tampered : Action Bytes
append_tampered = do
  name ← gets (λ s. s.log_file_name)
  let longer = name ++ codes ".tampered"
  if ltb (length longer) (max_path_len - 9)
      then modify (λ s. record s { log_file_name = longer }) >> pure longer
      else crash

-- The file was manipulated: its contents are saved under another name.
unfoldable pub close_tampered : System → ℕ → Bytes → Action (Unit {0})
unfolding append_tampered
close_tampered sys fuel message = do
  dologging sys message
  name ← append_tampered
  fd ← gets (λ s. s.log_file)
  recovered ← recoverfile sys fuel fd name
  dologging sys (
      if recovered
      then codes "*** MANIPULATED LOGFILE RECOVERED ***\r\n"
      else codes "*** THIS LOGFILE CANNOT BE RECOVERED ***\r\n")
  call (close_fd fd)

unfoldable pub close_untouched : Action (Unit {0})
close_untouched = do
  fd ← gets (λ s. s.log_file)
  call (close_fd fd)
  name ← gets (λ s. s.log_file_name)
  call (rename_path name (snprintf max_path_len (name ++ codes ".closed")))

abbrev closed_line : System → ℕ → Session → Bytes
closed_line sys now s =
    plain_name s.prog_name
    ++ (codes " session closed for "
        ++ (s.user_name
            ++ (codes " on " ++ (or_empty sys.ttyname ++ (codes " at " ++ sys.ctime now)))))

-- What is done with the file, by the message in `msgbuf`.
unfoldable pub close_log : System → ℕ → Option Bytes → Action (Unit {0})
unfolding close_tampered close_untouched
close_log sys fuel none = close_untouched
close_log sys fuel (some message) = close_tampered sys fuel message

-- Behind the write of the last line.
unfoldable pub after_last_line : System → ℕ → Option ℕ → Action Bool
unfolding examine close_log
after_last_line sys fuel none = call (print_error (codes "Error writing to logfile")) >> pure false
after_last_line sys fuel (some n) = do message ← examine sys; close_log sys fuel message; pure true

-- The block under `if (logtofile)`; `false` is the early return.
unfoldable pub end_file : System → ℕ → Action Bool
unfolding after_last_line
end_file sys fuel = do
  now ← gets (λ s. sys.time s.calls)
  line ← gets (closed_line sys now)
  text ← formatted line
  count ← write_log sys text
  after_last_line sys fuel count

-- The block under `if (logtosyslog)`: CR LF ends the line that is kept.
unfoldable pub end_syslog : System → Action (Unit {0})
end_syslog sys = do
  send_syslog (codes "\r\n")
  line ← gets (λ s.
      s.user_name
      ++ (codes ","
          ++ (or_empty sys.ttyname
              ++ (codes ": closing "
                  ++ (s.prog_name ++ (codes " session (" ++ (s.session_id ++ codes ")")))))))
  call (to_syslog (record { level = syslog_level; text = line }))
  call close_syslog

unfoldable pub endlogging : System → ℕ → Action (Unit {0})
unfolding end_file end_syslog
endlogging sys fuel = do
  logtofile ← gets (λ s. s.settings.logtofile)
  go_on ← (if logtofile then end_file sys fuel else pure true)
  logtosyslog ← gets (λ s. s.settings.logtosyslog)
  when (go_on && logtosyslog) (end_syslog sys)
