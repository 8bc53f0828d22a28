-- ===== src/Session/Logging/Output.antt =====
-- `dologging`, `forceopen` and `recoverfile`.
use rootsh.Base.{
  ℕ, zero, suc, Bool, true, false, Option, none, some, [], ◌∷◌, ◌++◌, ◌==◌, if◌then◌else◌, length,
}
use rootsh.Text.{Bytes, codes, decimal}
use rootsh.Syslog.Writer.{Options, Written, written, failed, write2syslog}
use rootsh.Session.Calls.{
  System, Errno, eexist, eisdir, write_to, read_from, open_file, close_fd, seek_start, unlink_path,
  rmdir_path, print_error,
}
use rootsh.Session.State.{
  Session, Outcome, returned, crashed, Action, pure, out_of_fuel, gets, perform, call, when, unit,
  ◌>>=◌, ◌>>◌, push_entries,
}

-- SYSLOGFACILITY and SYSLOGPRIORITY, where the build does not set them: LOG_LOCAL5, LOG_NOTICE.
abbrev pub syslog_options : Session → Options
syslog_options s = record {
  use_linecnt = s.settings.syslog_log_line_count;
  facility = 168;
  priority = 5;
}

-- The variables and the calls that `write2syslog` leaves.
unfoldable pub after_write : Session → Written → Outcome (Unit {0}) × Session
after_write s (written w entries) =
    (returned tt, record s { writer = w; calls = push_entries entries s.calls })
after_write s failed = (crashed, s)

unfoldable pub send_syslog : Bytes → Action (Unit {0})
unfolding after_write
send_syslog msgbuf s = after_write s (write2syslog (syslog_options s) s.writer (some msgbuf))

abbrev pub write_log : System → Bytes → Action (Option ℕ)
write_log sys msgbuf = do
  fd ← gets (λ s. s.log_file)
  perform (write_to fd msgbuf) (λ calls. sys.write calls fd msgbuf)

-- The part of `dologging` for the file.
unfoldable pub send_file : System → Bytes → Action (Unit {0})
send_file sys msgbuf = do
  count ← write_log sys msgbuf
  elim count [ none ↦ call (print_error (codes "Error writing to logfile")) | some _ ↦ unit ]

unfoldable pub dologging : System → Bytes → Action (Unit {0})
unfolding send_file send_syslog
dologging sys msgbuf = do
  logtofile ← gets (λ s. s.settings.logtofile)
  when logtofile (send_file sys msgbuf)
  logtosyslog ← gets (λ s. s.settings.logtosyslog)
  when logtosyslog (send_syslog msgbuf)

-- What is done about an error of `open`, and the message.
unfoldable pub clear_path : Bytes → Errno → Action Bytes
clear_path path eexist = do call (unlink_path path); pure (codes "*** FILE ALREADY EXISTS ***\r\n")
clear_path path eisdir = do
  call (rmdir_path path)
  pure (codes "*** FILE ALREADY EXISTS AS A DIRECTORY ***\r\n")
clear_path path Errno.eintr = pure (codes "*** FILE COULD NOT BE CREATED (ERRNO 4)  ***\r\n")
clear_path path (Errno.other n) =
    pure (codes "*** FILE COULD NOT BE CREATED (ERRNO " ++ (decimal n ++ codes ")  ***\r\n"))

abbrev pub open_recovery : System → Bytes → Action (Option ℕ)
open_recovery sys path = perform (open_file path) (λ calls. sys.opened calls path)

abbrev pub last_error : System → Action Errno
last_error sys = gets (λ s. sys.errno s.calls)

-- Behind a call of `open`: after an error the next round, `again`, if `left` rounds are left.
unfoldable pub retry : System → Bytes → ℕ → Action (Option ℕ) → Option ℕ → Action (Option ℕ)
unfolding clear_path
retry sys path left again (some fd) = pure (some fd)
retry sys path left again none =
    if left == 0
    then pure none
    else (last_error sys >>= λ errno.
        clear_path path errno >>= λ msgbuf. dologging sys msgbuf >> again)

-- The loop of `forceopen`, with the number of calls of `open` that are left.
unfoldable pub try_open : System → Bytes → ℕ → Action (Option ℕ)
unfolding retry
try_open sys path zero = pure none
try_open sys path (suc left) =
    open_recovery sys path >>= retry sys path left (try_open sys path left)

unfoldable pub forceopen : System → Bytes → Action (Option ℕ)
unfolding try_open
forceopen sys path = try_open sys path 3

abbrev pub read_log : System → ℕ → Action (Option Bytes)
read_log sys fd = perform (read_from fd) (λ calls. sys.read calls fd)

-- A short count of `write` is only reported.
unfoldable pub check_count : ℕ → Option ℕ → Action (Unit {0})
check_count size none = call (print_error (codes "write recoverfile"))
check_count size (some n) =
    if n == size then unit else call (print_error (codes "write recoverfile"))

-- A turn of the loop on what `read` gave: nothing more to read, or a block and the next turn.
unfoldable pub copy_block : System → ℕ → Action (Unit {0}) → Option Bytes → Action (Unit {0})
unfolding check_count
copy_block sys to again none = unit
copy_block sys to again (some []) = unit
copy_block sys to again (some (c ∷ cs)) =
    perform (write_to to (c ∷ cs)) (λ calls. sys.write calls to (c ∷ cs)) >>= λ count.
    check_count (length (c ∷ cs)) count >> again

-- `while ((msglen = read(...)) > 0)`, with the fuel for its turns.
unfoldable pub copy_loop : System → ℕ → ℕ → ℕ → Action (Unit {0})
unfolding copy_block
copy_loop sys zero from to = out_of_fuel
copy_loop sys (suc fuel) from to =
    read_log sys from >>= copy_block sys to (copy_loop sys fuel from to)

-- On what `forceopen` returned.
unfoldable pub recover_into : System → ℕ → ℕ → Option ℕ → Action Bool
unfolding copy_loop
recover_into sys fuel ohandle none = pure false
recover_into sys fuel ohandle (some fd) = do
  call (seek_start ohandle)
  copy_loop sys fuel ohandle fd
  call (close_fd fd)
  pure true

unfoldable pub recoverfile : System → ℕ → ℕ → Bytes → Action Bool
unfolding recover_into
recoverfile sys fuel ohandle path = forceopen sys path >>= recover_into sys fuel ohandle
