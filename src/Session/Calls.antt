-- ===== src/Session/Calls.antt =====
-- The calls that rootsh makes of the system, and the system as a parameter: each call is recorded,
-- and its result may depend on all calls made before.
use rootsh.Base.{ℕ, Bool, Option, List}
use rootsh.Text.{Bytes}
use rootsh.Syslog.Writer.{Entry}
use rootsh.Session.Modes.{Modes}

pub data Call : Type 0 where
  write_to : ℕ → Bytes → Call
  read_from : ℕ → Call
  open_append open_file : Bytes → Call
  close_fd seek_start fstat_fd : ℕ → Call
  stat_path unlink_path rmdir_path : Bytes → Call
  rename_path : Bytes → Bytes → Call
  open_syslog : Bytes → Call
  to_syslog : Entry → Call
  close_syslog : Call
  print_error : Bytes → Call
  print_output : Bytes → Call
  get_tty : Call
  set_tty : Modes → Call
  resize_pty : Call
  signal_child : Call
  wait_child : Call
  wait_ready : Call
  clear_environment : Call
  execute : Bytes → List Bytes → Call
  open_master : Call
  grant_pty unlock_pty pty_name set_size : ℕ → Call
  push_module : ℕ → Bytes → Call
  set_modes : ℕ → Modes → Call
  fork_process new_session : Call
  duplicate : ℕ → ℕ → Call

-- `st_ino` and `st_dev`
pub record Stat : Type 0 where
  pub inode : ℕ
  pub device : ℕ

-- `errno` as far as the code looks at it.
pub data Errno : Type 0 where
  eexist eisdir eintr : Errno
  other : ℕ → Errno

-- The status that `wait` gives: an exit status, a signal, or neither.
pub data Status : Type 0 where
  exited signaled : ℕ → Status
  unknown : Status

pub data Signal : Type 0 where
  sigint sigquit sigchld sigwinch : Signal
  unexpected : ℕ → Signal

-- What `pselect` gives.
pub data Ready : Type 0 where
  failed : Errno → Ready
  ready : Bool → Bool → Ready

-- The fields of `struct tm` that are used.
pub record Tm : Type 0 where
  pub year : ℕ
  pub mon : ℕ
  pub mday : ℕ
  pub hour : ℕ
  pub min : ℕ
  pub sec : ℕ

-- `none` is -1, or the null pointer. The list holds the calls made before, the last one first.
pub record System : Type 0 where
  pub write : List Call → ℕ → Bytes → Option ℕ
  pub read : List Call → ℕ → Option Bytes
  pub opened : List Call → Bytes → Option ℕ
  pub stat : List Call → Bytes → Option Stat
  pub fstat : List Call → ℕ → Option Stat
  pub unlink : List Call → Bytes → Bool
  pub errno : List Call → Errno
  pub strerror : Errno → Bytes
  pub set_tty : List Call → Bool
  pub isatty : Bool
  pub pselect : List Call → Ready
  pub signals : List Call → List Signal
  pub wait : List Call → Option Status
  pub time : List Call → ℕ
  pub localtime : ℕ → Tm
  pub ctime : ℕ → Bytes
  pub pid : ℕ
  pub ttyname : Option Bytes
  pub login_name : Option Bytes
