-- ===== src/Session/MainTests.antt =====
-- The program, from its start on, on a machine that can be followed by hand.
use mathlib.Core.List.{Sublist}
use rootsh.Base.{List, reverse, ◌≡◌, ◌≢◌, refl, true, false, none, some, [], ◌∷◌, length, arith}
use rootsh.Text.{Bytes, codes, equal, c_string, memchr, strncpy, padded}
use rootsh.Syslog.Strip.{stripesc}
use rootsh.Syslog.Writer.{Entry, initial, written, write2syslog, scan, send_line, after_cr}
use rootsh.Syslog.Calls.{write_calls}
use rootsh.Basename.{
  slash_found, walk, cut_slashes, last_element, without_slashes, basename_of_copy, basename,
}
use rootsh.Session.StartUp.{
  Machine, check_compiled, message_text, print_messages, after_config, start_up, after_options,
  parse_options, make_session_id, note_session, stands_alone,
}
use rootsh.Session.Main.{
  after_pty, after_begin, after_shell, after_mode, after_name, run_session, main,
}
use rootsh.Session.Pty.{
  give_up, attempt, close_log_handles, become_standard, push_modules, with_slave, in_child,
  in_parent, after_fork, with_master, forkpty,
}
use rootsh.Session.Options.{login, no_logfile, no_syslog, choose, read_options}
use rootsh.Session.Setup.{
  owner_name, ask_terminal, effective_name, setupusername, default_shell, is_listed, is_self,
  replace_shell, check_shell, entry_of_user, shell_of_user, setupshell, clean_environment,
  become_user, setupusermode,
}
use rootsh.Session.Environment.{
  name_of, getenv, putenv, is_saved, add_saved, save_value, saveenv, clearenv, put_all,
  restore_from, restoreenv,
}
use rootsh.Session.Logging.Begin.{
  def_log_file_name, user_path, standalone_name, choose_name, note_start, remember_identity,
  open_log_file, open_syslog_session, note_commands, begin_syslog, begin_destinations, beginlogging,
}
use rootsh.Session.Logging.Output.{
  syslog_options, after_write, send_syslog, send_file, dologging, clear_path, retry, try_open,
  forceopen, check_count, copy_block, copy_loop, recover_into, recoverfile,
}
use rootsh.Session.Logging.End.{
  remove_impostor, check_handle, compare_identity, missing_name, examine_name, examine,
  append_tampered, close_tampered, close_untouched, close_log, after_last_line, end_file,
  end_syslog, endlogging,
}
use rootsh.Session.Loop.{
  signal_handler, handle_all, setup_signal_handlers, child_message, report_child, restore_tty,
  finish, fail_errno, fail_with, check_passed, pass_input, read_stdin, check_shown, show_output,
  read_pty, handle_ready, handle_window, handle_end, session_turn, session_loop, log_session,
}
use rootsh.Config.File.{
  set_option, apply_split, read_line, fgets, file_lines, resume, read_lines, read_config_file,
}
use rootsh.Session.Modes.{new_tty}
use rootsh.Session.State.{Session, returned, ◌>>=◌}
use rootsh.Session.Usage.{Build}
use rootsh.Session.Pty.{Terminals}
use rootsh.Session.Blocks.{blocks_to}
use rootsh.Session.Shown.{LogsFirst}
use rootsh.Session.Logging.BegunLaws.{Begun, beginlogging-Begun}
use rootsh.Session.Unlogged.{starts}
use rootsh.Session.EnvironmentLaws.{setupshell-session_id}
use rootsh.Session.MainRefuses.{main-refuses}
use rootsh.Session.Settled.{identity}
use rootsh.Session.Sent.{entries_in}
use rootsh.Session.MainSent.{main-syslog}
use rootsh.Session.MainEnds.{IsOver, main-IsOver}
use rootsh.Session.LoopTests.{ending_system, ending_system-Copies, ending_system-SignalsAfter}
use rootsh.Session.MainShown.{main-LogsFirst}
use rootsh.Session.Tests.{quiet_system, cooked, opened_session}
use rootsh.Session.SetupTests.{accounts, environment}

abbrev terminals : Terminals
terminals = record {
  modes = λ calls. cooked;
  master = λ calls. some 6;
  granted = λ calls. true;
  unlocked = λ calls. true;
  forked = λ calls. some 4712;
  slave_name = λ calls. some (codes "/dev/pts/3");
  slave = λ calls. some 7;
  modules = codes "ptem" ∷ codes "ldterm" ∷ [];
  pushed = λ calls. true;
  modes_set = λ calls. true;
  size_set = λ calls. true;
  master_device = codes "/dev/ptmx";
}

abbrev build : Build
build = record {
  logdir = codes "/var/log";
  default_shell = codes "/bin/bash";
  config_file = codes "/etc/rootsh.cfg";
  version = codes "1.8";
  facility_name = codes "local5";
  priority_name = codes "notice";
  sucmd = codes "/bin/su";
}

abbrev machine : Machine
machine = record {
  system = quiet_system;
  accounts = accounts;
  terminals = terminals;
  config = none;
  argv0 = codes "rootsh";
  choices = login ∷ [];
  rest = codes "ls" ∷ [];
  environment = environment;
  exec_fails = false;
}

abbrev first_state : Session
first_state = record opened_session {
  settings = record opened_session.settings { logtosyslog = true };
  log_file = 0;
  master_pty = 0;
}

-- The prompt is shown once before the shell ends.
main_runs :
    let end = (main build machine 10 9 first_state).1 in
    (end.settings.logtofile ≡ true)
    × (end.settings.logtosyslog ≡ true)
    × (length (blocks_to 1 end.calls) ≡ 1)
unfolding ◌>>=◌ slash_found walk cut_slashes last_element without_slashes basename_of_copy basename
    check_compiled message_text print_messages after_config start_up after_options parse_options
    make_session_id note_session stands_alone after_pty after_begin after_shell after_mode
    after_name run_session main give_up attempt close_log_handles become_standard push_modules
    with_slave in_child in_parent after_fork with_master forkpty choose read_options owner_name
    ask_terminal effective_name setupusername default_shell is_listed is_self replace_shell
    check_shell entry_of_user shell_of_user setupshell clean_environment become_user setupusermode
    name_of getenv putenv is_saved add_saved save_value saveenv clearenv put_all restore_from
    restoreenv def_log_file_name user_path standalone_name choose_name note_start remember_identity
    open_log_file open_syslog_session note_commands begin_syslog begin_destinations beginlogging
    after_write send_syslog send_file dologging clear_path retry try_open forceopen check_count
    copy_block copy_loop recover_into recoverfile remove_impostor check_handle compare_identity
    missing_name examine_name examine append_tampered close_tampered close_untouched close_log
    after_last_line end_file end_syslog endlogging signal_handler handle_all setup_signal_handlers
    child_message report_child restore_tty finish fail_errno fail_with check_passed pass_input
    read_stdin check_shown show_output read_pty handle_ready handle_window handle_end session_turn
    session_loop log_session set_option apply_split read_line fgets file_lines resume read_lines
    read_config_file new_tty equal write2syslog scan send_line after_cr stripesc strncpy c_string
    memchr padded
main_runs = (refl, refl, refl)

main-LogsFirst_example :
    LogsFirst
      (main build machine 10 9 first_state).1.log_file
      (main build machine 10 9 first_state).1.calls
main-LogsFirst_example =
    main-LogsFirst build machine 10 9 first_state (λ calls path n opened. ground arith)
      (λ calls n opened. ground arith) refl refl refl main_runs.0

main-syslog_example :
    let t = (main build machine 10 9 first_state).1 in
    (texts : List Bytes) × (entries : List Entry) × Sublist (blocks_to 1 t.calls) texts
    × (write_calls (syslog_options t) initial (reverse texts) ≡ written t.writer entries)
    × Sublist (reverse entries) (entries_in t.calls)
main-syslog_example =
    main-syslog build machine 10 9 first_state (λ calls path n opened. ground arith)
      (λ calls n opened. ground arith) refl refl refl refl main_runs.1

-- The shell is gone at the third wait.
abbrev ending_machine : Machine
ending_machine = record machine { system = ending_system }

main-IsOver_example :
    let end = main build ending_machine 3 4 first_state in IsOver end.0 end.1.calls
main-IsOver_example =
    main-IsOver build ending_machine 3 3 4 first_state
      (ending_system-Copies (identity (main build ending_machine 3 4 first_state).1))
      ending_system-SignalsAfter (omega arith)

-- `rootsh -x -y ls`
abbrev unlogged_machine : Machine
unlogged_machine = record machine { choices = no_logfile ∷ no_syslog ∷ [] }

main-refuses_example :
    (starts (main build unlogged_machine 10 9 first_state).1.calls ≡ 0)
    × ((main build unlogged_machine 10 9 first_state).0 ≢ returned tt)
main-refuses_example = main-refuses build unlogged_machine 10 9 first_state refl refl

beginlogging_runs :
    (beginlogging quiet_system (some (codes "ls ")) opened_session).0 ≡ returned true
unfolding ◌>>=◌ def_log_file_name user_path standalone_name choose_name note_start remember_identity
    open_log_file open_syslog_session note_commands begin_syslog begin_destinations beginlogging
    after_write send_syslog send_file dologging
beginlogging_runs = refl

beginlogging-Begun_example :
    Begun quiet_system
      (choose_name quiet_system 1000 opened_session)
      (beginlogging quiet_system (some (codes "ls ")) opened_session).1
beginlogging-Begun_example =
    beginlogging-Begun quiet_system (some (codes "ls ")) opened_session refl beginlogging_runs

setupshell-session_id_example :
    let id = make_session_id 4711 opened_session.prog_name in
    let (_, moded, t) = setupusermode accounts (note_session id environment) opened_session in
    let (_, given, _) = setupshell accounts moded t in
    getenv given.entries (codes "ROOTSH_SESSIONID") ≡ some id
setupshell-session_id_example = setupshell-session_id accounts 4711 environment opened_session refl
