-- ===== src/Session/SentTests.antt =====
-- A session that is logged to syslog.
use rootsh.Base.{◌≡◌, refl, true, [], ◌∷◌}
use rootsh.Text.{codes, c_string, memchr, strncpy, padded}
use rootsh.Syslog.Strip.{stripesc}
use rootsh.Syslog.Writer.{write2syslog, scan, send_line, after_cr}
use rootsh.Session.State.{Session, ◌>>=◌}
use rootsh.Session.Logging.Output.{after_write, send_syslog, send_file, dologging}
use rootsh.Session.Logging.End.{
  examine, examine_name, compare_identity, check_handle, close_log, close_untouched,
  after_last_line, end_file, end_syslog, endlogging,
}
use rootsh.Session.Loop.{
  signal_handler, handle_all, setup_signal_handlers, child_message, report_child, restore_tty,
  finish, read_stdin, check_shown, show_output, read_pty, handle_ready, handle_window, handle_end,
  session_turn, session_loop, log_session,
}
use rootsh.Session.Blocks.{blocks_to}
use rootsh.Session.Tests.{opened_session}
use rootsh.Session.LoopTests.{ending_system}

-- The shell's prompt goes to syslog.
abbrev sent_session : Session
sent_session = record opened_session {
  settings = record opened_session.settings { logtosyslog = true };
}

-- Two blocks of the shell are shown and sent.
sent_session_runs :
    let t = (log_session ending_system 3 4 sent_session).1 in
    blocks_to 1 t.calls ≡ codes "line" ∷ codes "line" ∷ []
unfolding ◌>>=◌ log_session session_loop session_turn handle_all signal_handler
    setup_signal_handlers handle_ready read_stdin read_pty show_output check_shown dologging
    send_file send_syslog after_write write2syslog scan send_line after_cr stripesc strncpy c_string
    memchr padded handle_window handle_end finish restore_tty report_child child_message endlogging
    end_file end_syslog after_last_line examine examine_name compare_identity check_handle close_log
    close_untouched
sent_session_runs = refl
