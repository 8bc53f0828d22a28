-- ===== src/Lib.antt =====
-- rootsh, a shell wrapper that logs what the terminal shows: a library on its C sources.
--
-- The program starts a shell behind a pty and copies the user's bytes to it and the shell's bytes
-- to the terminal. What the shell puts out is logged first, to a file, to syslog, or to both.
--
-- The parts, with the files of the repository:
-- - Base: the shared names, the lists over the native numbers, and their lemmas.
-- - Text: byte strings and the functions of string.h and stdio.h on them (memchr, strncpy, the
--   decimal formats). A C string is the list of its bytes before the NUL.
-- - Config: src/configParser.c (Config.Trim is trimWhitespace, Config.Split is splitConfigLine,
--   isConfigLine and parseBool) and readConfigFile of src/rootsh.c (Config.File). Config.TrimLaws,
--   Config.SplitLaws, Config.FileLaws and Config.Assignments hold the statements on them.
-- - Syslog: src/write2syslog.c. Syslog.Strip is stripesc, a state machine over the bytes, and
--   Syslog.Writer is write2syslog with its static variables. Syslog.Stream is an independent
--   description of the lines of a byte stream; Syslog.Lines and Syslog.Calls relate the two, and
--   Syslog.Appended adds a call behind others. Syslog.Tokens is an independent grammar of what a
--   terminal is sent; Syslog.Filtered, Syslog.TokenSteps, Syslog.TokenLaws and Syslog.StripLaws
--   relate stripesc to it.
-- - Basename: src/basename.c.
-- - Session: the rest of src/rootsh.c. Session.Calls lists the calls of the system that rootsh
--   makes; the system is a parameter, a record of functions whose results may depend on all calls
--   made before. Session.State holds the static variables and the calls made, and the outcomes
--   of a function: it returns, it ends the program by exit, its behaviour is undefined, or the
--   fuel of a loop ran out. Session.Logging.Output is dologging, forceopen and recoverfile;
--   Session.Logging.Begin is beginlogging; Session.Logging.End is endlogging; statements on them
--   stand in the other files of Session/Logging. Session.Modes is the terminal modes, Session.Loop
--   the signal handler, finish and the event loop of logSession.
--   Session.Closed, with Session.Closed.Begin, End, Recovery, Pty and Loop, goes through these
--   functions once, for any class of actions that is closed under their parts. The classes are
--   those of Session.ShownClosed and Session.ShownLoop (what the terminal has shown is in the log,
--   as Session.Shown describes it with the blocks of Session.Blocks), Session.Sent and
--   Session.SentLoop (it was handed to write2syslog), Session.Relayed, Session.RelaySteps,
--   Session.Relays and Session.RelayLoop (every block that is read is written on), Session.Settled
--   and Session.SettledLoop (the variables that stay), Session.Proceeds (no exit),
--   Session.Completes and Session.Comes (no fuel runs out), Session.Extends (predicates that calls
--   cannot take away) and Session.WritesElsewhere (those that only some writes and reads take away,
--   where Session.Elsewhere and Session.StartsElsewhere describe what is opened). Session.Rules has
--   the rules for binds, Session.Ending, Session.Liveness and Session.FinishLaws the statements on
--   the session's end.
--   Session.Environment is saveenv, clearenv and restoreenv (whether the build has the C library's
--   clearenv is a field of the environment); Session.Setup is setupusername,
--   setupshell, setupusermode and getDefaultshell, over an account database that is a parameter;
--   Session.Exec is execShell and consume_remaining_args; Session.Options is the loop of main over
--   the options, Session.Usage is version and usage, Session.StartUp the first part of main, and
--   Session.Main puts all of it together. Session.Pty is forkpty; Session.Pty.Sides,
--   Session.Pty.Descriptors and Session.Pty.Closing follow the descriptors through it, for Session.Pty.Held. Session.Prepares
--   and Session.Launch go through the parts of main for any predicate that their changes do not
--   take away; Session.Silent and Session.MainShown use them for what is shown, Session.Runs,
--   Session.SentRuns and Session.MainSent for what is handed to write2syslog, Session.MainEnds for
--   the end of the program, Session.Unlogged and Session.MainRefuses for a session with no
--   destination. Session.EnvironmentLaws has the statement on the session's name in the
--   environment, and Session.Sudo that on the log file's name under sudo; Session.SetupLaws, Session.ExecLaws and Session.OptionsLaws hold those on the
--   setup, execShell and the options.
--
-- readConfigFile hands each line to splitConfigLine; the settings that it leaves are part of the
-- session's state. dologging calls write2syslog, whose static variables are part of that state
-- too; logSession, finish, endlogging and recoverfile log through dologging.
--
-- Bounds and fuel: the event loop has no end but the program's, so that session_loop counts the
-- turns that are observed. The copying loop of recoverfile ends when read does, so that it has
-- fuel: one more than the reads that give bytes. All other loops recurse on the bytes or on the
-- number of rounds left. Counters and descriptors are not bounded; buffers are: the length of a
-- path against MAXPATHLEN, and a formatted text against BUFSIZ (8192), where the length that
-- snprintf returns and the bytes that it wrote differ.
--
-- Signals: the handler only sets flags, so that when it ran matters where a flag is looked at. In
-- session_turn it runs at the return of pselect and before each of the two tests. A signal that comes
-- before setupSignalHandlers has cleared the flags, or before the flag of the window is cleared
-- behind its test, is lost, and is none of the model's.
--
-- Not modelled: getopt_long (what it gives is a parameter), the sizes of windows, failing
-- allocation, and the copies of GNU getopt and getusershell.
pub mod Base
pub mod Text
pub mod Config
pub mod Syslog
pub mod Session
pub mod Basename
