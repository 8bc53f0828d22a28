-- ===== src/Session/Tests.antt =====
-- A session with a system that can be followed by hand, and the theorems there.
use rootsh.Base.{
  ◌<◌, ◌-◌, ◌≡◌, ◌↔◌, inr, leb, refl, true, false, none, some, [], ◌∷◌, length, ltb, if◌then◌else◌,
  arith,
}
use rootsh.Text.{codes}
use rootsh.Config.File.{Settings, max_path_len}
use rootsh.Syslog.Writer.{initial}
use rootsh.Session.Calls.{System, Errno, exited, sigchld, ready}
use rootsh.Session.Modes.{Modes}
use rootsh.Session.State.{Session, returned, ◌>>=◌}
use rootsh.Session.Logging.Begin.{choose_name}
use rootsh.Session.Logging.BeginLaws.{choose_name-fits}
use rootsh.Session.Logging.Output.{copy_loop, dologging, send_file}
use rootsh.Session.Logging.End.{
  endlogging, end_file, after_last_line, examine, examine_name, compare_identity, check_handle,
  close_log, close_untouched,
}
use rootsh.Session.Logging.EndLaws.{IsUntouched, examine-IsUntouched}
use rootsh.Session.Logging.CopyLaws.{reads, EndsAfter, copy_loop-returned}
use rootsh.Session.Loop.{
  log_session, session_loop, session_turn, handle_all, signal_handler, setup_signal_handlers,
  handle_ready, read_stdin, read_pty, show_output, check_shown, handle_window, handle_end, finish,
  restore_tty, report_child, child_message,
}
use rootsh.Session.Blocks.{blocks_to}
use rootsh.Session.Shown.{LogsFirst}
use rootsh.Session.ShownLoop.{log_session-LogsFirst}

-- The shell shows a prompt whenever it is asked and ends in the third turn; the log is left alone.
abbrev pub quiet_system : System
quiet_system = record {
  write = λ calls fd buf. some (length buf);
  read = λ calls fd. some (codes "$ ");
  opened = λ calls path. some 9;
  stat = λ calls path. some (record { inode = 77; device = 3 });
  fstat = λ calls fd. some (record { inode = 77; device = 3 });
  unlink = λ calls path. true;
  errno = λ calls. Errno.eexist;
  strerror = λ errno. codes "error";
  set_tty = λ calls. true;
  isatty = true;
  pselect = λ calls. ready false true;
  signals = λ calls. if ltb 9 (length calls) then sigchld ∷ [] else [];
  wait = λ calls. some (exited 0);
  time = λ calls. 1000;
  localtime = λ now. record { year = 126; mon = 10; mday = 25; hour = 18; min = 21; sec = 0 };
  ctime = λ now. codes "Wed Nov 25\n";
  pid = 4711;
  ttyname = some (codes "/dev/pts/1");
  login_name = some (codes "root");
}

abbrev defaults : Settings
defaults = record {
  logtofile = true;
  logdir = codes "/var/log/rootsh";
  logtosyslog = false;
  syslog_log_username = false;
  syslog_log_line_count = true;
  defaultshell = codes "/bin/bash";
}

abbrev pub cooked : Modes
cooked = record {
  vmin = 1;
  vtime = 0;
  opost = true;
  icanon = true;
  isig = true;
  echo = true;
  inlcr = false;
  igncr = false;
  icrnl = true;
  iuclc = false;
  ixon = true;
}

abbrev pub opened_session : Session
opened_session = record {
  settings = defaults;
  prog_name = codes "rootsh";
  session_id = codes "rootsh-1267";
  log_file = 5;
  log_inode = 77;
  log_dev = 3;
  log_file_name = codes "/var/log/rootsh/jo";
  user_log_file_name = none;
  user_log_file_dir = none;
  user_name = codes "jo";
  run_as_user = none;
  standalone = false;
  use_login_shell = false;
  isa_login_shell = false;
  master_pty = 4;
  term_params = cooked;
  sig_winch = false;
  sig_int = false;
  sig_quit = false;
  sig_chld = false;
  writer = initial;
  calls = [];
}

-- Three prompts are shown and logged; then the shell ends, and two more lines are logged.
session_runs :
    let calls = (log_session quiet_system 10 5 opened_session).1.calls in
    (blocks_to 1 calls ≡ codes "$ " ∷ codes "$ " ∷ codes "$ " ∷ [])
    × (length (blocks_to 5 calls) ≡ 5)
unfolding ◌>>=◌ log_session session_loop session_turn handle_all signal_handler
    setup_signal_handlers handle_ready read_stdin read_pty show_output check_shown dologging
    send_file handle_window handle_end finish restore_tty report_child child_message endlogging
    end_file after_last_line examine examine_name compare_identity check_handle close_log
    close_untouched
session_runs = (refl, refl)

log_session-LogsFirst_example : LogsFirst 5 (log_session quiet_system 10 5 opened_session).1.calls
log_session-LogsFirst_example =
    log_session-LogsFirst quiet_system 10 5 opened_session (λ calls path n opened. ground arith)
      refl refl refl refl

choose_name-fits_example : length (choose_name quiet_system 1000 opened_session) < max_path_len - 9
choose_name-fits_example = choose_name-fits quiet_system 1000 opened_session

examine-IsUntouched_example :
    ((examine quiet_system opened_session).0 ≡ returned none)
    ↔ IsUntouched quiet_system opened_session
examine-IsUntouched_example = examine-IsUntouched quiet_system opened_session

-- Two reads give bytes, the third one is at the end of the file.
abbrev pub short_log : System
short_log = record quiet_system {
  read = λ calls fd. if leb 2 (reads fd calls) then some [] else some (codes "line");
}

short_log-EndsAfter : EndsAfter short_log 5 2
short_log-EndsAfter calls late =
    let stops : leb 2 (reads 5 calls) ≡ true = ground arith in inr (rw stops)

copy_loop-returned_example : (copy_loop short_log 3 5 9 opened_session).0 ≡ returned tt
copy_loop-returned_example =
    copy_loop-returned short_log 5 9 2 3 opened_session short_log-EndsAfter (omega arith)
      (omega arith)
