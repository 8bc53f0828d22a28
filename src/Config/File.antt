-- ===== src/Config/File.antt =====
-- `readConfigFile` of rootsh.c: the loop over the lines of the file, and what each key sets.
use rootsh.Base.{
  ℕ, zero, suc, ◌+◌, ◌-◌, Bool, true, false, Option, none, some, List, [], ◌∷◌, ◌++◌, ltb, ◌==◌,
  if◌then◌else◌, length,
}
use rootsh.Text.{Bytes, codes, c_string, equal}
use rootsh.Config.Split.{is_config_line, SplitResult, split_config_line, parse_bool}

-- MAXPATHLEN of <sys/param.h>
abbrev pub max_path_len : ℕ
max_path_len = 4096

-- The static variables that the file sets.
pub record Settings : Type 0 where
  pub logtofile : Bool
  pub logdir : Bytes
  pub logtosyslog : Bool
  pub syslog_log_line_count : Bool
  pub syslog_log_username : Bool
  pub defaultshell : Bytes

-- What is printed on stderr.
pub data Message : Type 0 where
  skipping : Bytes → Message
  logdir_too_long : Bytes → Message
  defaultshell_too_long : Bytes → Message

-- The returned Boolean with the variables and the messages, or a crash in `splitConfigLine`.
pub data ReadResult : Type 0 where
  returned : Bool → Settings → List Message → ReadResult
  crashed : ReadResult

-- One turn of the loop: it goes on, jumps to `cleanup` with `retval = false`, or crashes.
pub data LineResult : Type 0 where
  continued : Settings → List Message → LineResult
  cleanup : Settings → Message → LineResult
  crashed : LineResult

unfoldable pub set_option : Settings → Bytes → Bytes → LineResult
set_option s key value =
    if equal (codes "file") key
    then continued (record s { logtofile = parse_bool (some value) }) []
    else if equal (codes "file.dir") key
    then (if ltb max_path_len (length value)
        then cleanup s (logdir_too_long value)
        else continued (record s { logdir = value }) [])
    else if equal (codes "syslog") key
    then continued (record s { logtosyslog = parse_bool (some value) }) []
    else if equal (codes "syslog.linenumbering") key
    then continued (record s { syslog_log_line_count = parse_bool (some value) }) []
    else if equal (codes "syslog.username") key
    then continued (record s { syslog_log_username = parse_bool (some value) }) []
    else if equal (codes "defaultshell") key
    then (if ltb max_path_len (length value)
        then cleanup s (defaultshell_too_long value)
        else continued (record s { defaultshell = value }) [])
    else continued s []

-- The branch on what `splitConfigLine` returned.
unfoldable pub apply_split : Settings → Bytes → SplitResult → LineResult
apply_split s line SplitResult.refused = continued s (skipping line ∷ [])
apply_split s line SplitResult.crashed = LineResult.crashed
apply_split s line (SplitResult.split key value) = set_option s key value

-- The body of the loop. `key` and `value` are buffers of MAXPATHLEN + 1 bytes.
unfoldable pub read_line : Settings → Bytes → LineResult
unfolding apply_split
read_line s line =
    if is_config_line line
    then apply_split s line (split_config_line line (max_path_len + 1) (max_path_len + 1))
    else continued s []

-- `fgets(line, size, file)` with `room = size - 1`: the bytes read and those left.
unfoldable pub fgets : ℕ → Bytes → Bytes × Bytes
fgets zero file = ([], file)
fgets (suc room) [] = ([], [])
fgets (suc room) (c ∷ cs) =
    let (line, left) = fgets room cs in if c == b'\n' then (c ∷ [], cs) else (c ∷ line, left)

-- The strings that the calls of `fgets` leave in `line`, until it returns the null pointer. Each
-- takes a byte at least, so the length of the file is enough fuel.
unfoldable pub file_lines : ℕ → ℕ → Bytes → List Bytes
unfolding fgets
file_lines room zero file = []
file_lines room (suc fuel) [] = []
file_lines room (suc fuel) (c ∷ cs) =
    let (line, left) = fgets room (c ∷ cs) in c_string line ∷ file_lines room fuel left

-- The end of a turn: the next one, or `cleanup`.
unfoldable pub resume :
    (Settings → List Message → ReadResult) → List Message → LineResult → ReadResult
resume next printed (continued s messages) = next s (printed ++ messages)
resume next printed (cleanup s message) = returned false s (printed ++ message ∷ [])
resume next printed LineResult.crashed = ReadResult.crashed

unfoldable pub read_lines : Settings → List Message → List Bytes → ReadResult
unfolding resume
read_lines s printed [] = returned true s printed
read_lines s printed (line ∷ lines) =
    resume (λ s' printed'. read_lines s' printed' lines) printed (read_line s line)

-- `none`: CONFIGFILE cannot be opened.
unfoldable pub read_config_file : Settings → Option Bytes → ReadResult
unfolding file_lines read_lines
read_config_file s none = returned true s []
read_config_file s (some file) = read_lines s [] (file_lines (max_path_len - 1) (length file) file)
