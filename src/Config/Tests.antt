-- ===== src/Config/Tests.antt =====
-- The configuration parser at inputs that can be followed in the source, and its theorems there.
use rootsh.Base.{◌≡◌, refl, ◌↔◌, ◌⊎◌, ◌<◌, true, false, some, [], ◌∷◌, length, arith}
use rootsh.Text.{Bytes, codes, equal, equal_caseless, c_string, memchr}
use rootsh.Config.Trim.{is_whitespace, trim_whitespace}
use rootsh.Config.TrimLaws.{AllBlank, IsCore, trim_whitespace-core, trim_whitespace-last_byte}
use rootsh.Config.Split.{split, crashed, split_config_line, parse_bool}
use rootsh.Config.SplitLaws.{
  split_config_line-assignment, split_config_line-crashed, split_config_line-fits,
}
use rootsh.Config.File.{Settings, ReadResult, returned, read_config_file, set_option, read_line}
use rootsh.Config.FileLaws.{Succeeds, read_config_file-Succeeds}
use rootsh.Config.Assignments.{Assignment, IsAssignment, read_config_file-assignments}

abbrev defaults : Settings
defaults = record {
  logtofile = true;
  logdir = codes "/var/log/rootsh";
  logtosyslog = false;
  syslog_log_line_count = false;
  syslog_log_username = false;
  defaultshell = [];
}

abbrev config_text : Bytes
config_text =
    codes "# rootsh\n\nfile = FALSE\n syslog=true\nfile.dir=/logs\nsyslog=TRUE\nother=1\nnoise\n"

read_config_file_runs :
    read_config_file defaults (some config_text)
    ≡ returned true
        (record defaults { logtofile = false; logdir = codes "/logs"; logtosyslog = true })
        []
unfolding read_config_file read_line split_config_line trim_whitespace set_option parse_bool
    c_string memchr equal equal_caseless
read_config_file_runs = refl

-- The last line has no newline, and its value is one byte.
read_config_file_loses_byte :
    read_config_file defaults (some (codes "file.dir=/"))
    ≡ returned true (record defaults { logdir = [] }) []
unfolding read_config_file read_line split_config_line trim_whitespace set_option parse_bool
    c_string memchr equal equal_caseless
read_config_file_loses_byte = refl

read_config_file_crashes : read_config_file defaults (some (codes "file.dir=")) ≡ ReadResult.crashed
unfolding read_config_file read_line split_config_line trim_whitespace set_option parse_bool
    c_string memchr equal equal_caseless
read_config_file_crashes = refl

syslog-IsCore : IsCore (codes "syslog")
unfolding is_whitespace
syslog-IsCore = record {
  first = b's';
  rest = codes "yslog";
  front = codes "syslo";
  last = b'g';
  begins = refl;
  ends = refl;
  first_kept = refl;
  last_kept = refl;
}

on-IsCore : IsCore (codes "on")
unfolding is_whitespace
on-IsCore = record {
  first = b'o';
  rest = codes "n";
  front = codes "o";
  last = b'n';
  begins = refl;
  ends = refl;
  first_kept = refl;
  last_kept = refl;
}

blank : AllBlank (codes " ")
unfolding is_whitespace
blank = (refl, tt)

abbrev syslog_on : Assignment
syslog_on = record { key = codes "syslog"; value = codes "on" }

syslog_on-IsAssignment : IsAssignment syslog_on
syslog_on-IsAssignment = record {
  key_core = syslog-IsCore;
  value_core = on-IsCore;
  key_length = omega arith;
  key_no_equals = ground arith;
  key_no_comment = refl;
  key_plain = ground arith;
  value_plain = ground arith;
  fits = omega arith;
}

read_config_file-assignments_example :
    read_config_file defaults (some (codes "syslog=on\n")) ≡ returned true defaults []
unfolding equal parse_bool equal_caseless
read_config_file-assignments_example =
    read_config_file-assignments defaults (syslog_on ∷ []) (syslog_on-IsAssignment, tt)

read_config_file-Succeeds_example : Succeeds (read_config_file defaults (some config_text))
read_config_file-Succeeds_example =
    read_config_file-Succeeds defaults (some config_text) (omega arith)

trim_whitespace-core_example : trim_whitespace (codes " on ") ≡ some (codes "on")
trim_whitespace-core_example =
    trim_whitespace-core (codes " ") (codes "on") (codes " ") blank on-IsCore blank (omega arith)

trim_whitespace-last_byte_example : trim_whitespace (codes " x") ≡ some []
trim_whitespace-last_byte_example = trim_whitespace-last_byte (codes " ") b'x' blank

split_config_line-assignment_example :
    split_config_line (codes " syslog = on ") 16 16 ≡ split (codes "syslog") (codes "on")
split_config_line-assignment_example =
    split_config_line-assignment (codes " ") (codes "syslog") (codes " ") (codes " ") (codes "on")
      (codes " ") 16 16 blank blank blank blank syslog-IsCore on-IsCore (ground arith) refl
      (omega arith) (omega arith) (omega arith) (omega arith)

split_config_line-crashed_example :
    (split_config_line (codes "syslog=") 16 16 ≡ crashed)
    ↔ ((codes "syslog" ≡ []) ⊎ (codes "" ≡ []))
split_config_line-crashed_example =
    split_config_line-crashed (codes "syslog") [] 16 16 (ground arith) refl (omega arith)
      (omega arith)

split_config_line-fits_example : (length (codes "syslog") < 16) × (length (codes "on") < 16)
split_config_line-fits_example =
    split_config_line-fits (codes " syslog = on ") 16 16 split_config_line-assignment_example
