-- ===== src/Session/RelayTests.antt =====
-- A session in which the user types, and the shell answers.
use rootsh.Base.{◌≤◌, ◌≡◌, ◌≢◌, refl, true, List, [], ◌∷◌, ◌++◌, length, arith}
use rootsh.Text.{Bytes, codes}
use rootsh.Session.Calls.{System, ready}
use rootsh.Session.State.{crashed, ◌>>=◌}
use rootsh.Session.Logging.Output.{send_file, dologging}
use rootsh.Session.Logging.End.{
  examine, examine_name, compare_identity, check_handle, close_log, close_untouched,
  after_last_line, end_file, endlogging,
}
use rootsh.Session.Loop.{
  signal_handler, handle_all, setup_signal_handlers, child_message, report_child, restore_tty,
  finish, check_passed, pass_input, read_stdin, check_shown, show_output, read_pty, handle_ready,
  handle_window, handle_end, session_turn, session_loop, log_session,
}
use rootsh.Session.Blocks.{blocks_to}
use rootsh.Session.Relayed.{received, nonempty}
use rootsh.Session.RelayLoop.{log_session-received}
use rootsh.Session.Tests.{opened_session}
use rootsh.Session.LoopTests.{ending_system}

abbrev typing_system : System
typing_system = record ending_system { pselect = λ calls. ready true true }

-- At the third read there is nothing more: the empty block of the user is passed on, the one of the
-- shell is not shown.
typing_runs :
    let t = (log_session typing_system 3 4 opened_session).1 in
    (blocks_to 1 t.calls ≡ codes "line" ∷ codes "line" ∷ [])
    × (blocks_to 4 t.calls ≡ [] ∷ codes "line" ∷ codes "line" ∷ [])
unfolding ◌>>=◌ log_session session_loop session_turn handle_all signal_handler
    setup_signal_handlers handle_ready read_stdin pass_input check_passed read_pty show_output
    check_shown dologging send_file handle_window handle_end finish restore_tty report_child
    child_message endlogging end_file after_last_line examine examine_name compare_identity
    check_handle close_log close_untouched
typing_runs = (refl, refl)

log_session-received_example :
    let (r, t) = log_session typing_system 3 4 opened_session in
    (left : List Bytes) × (length left ≤ 1)
    × (r ≢ crashed → left ≡ [])
    × (nonempty (received typing_system 4 t.calls) ≡ left ++ blocks_to 1 t.calls)
    × (received typing_system 0 t.calls ≡ blocks_to 4 t.calls)
log_session-received_example =
    log_session-received typing_system 3 4 opened_session
      (λ calls path n opened. (ground arith, ground arith)) (refl, refl) (refl, refl) refl refl refl
