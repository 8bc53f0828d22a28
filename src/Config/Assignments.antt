-- ===== src/Config/Assignments.antt =====
-- A configuration file of plain assignments, and the settings that it gives.
use mathlib.Core.List.{append_assoc, append-nil}
use rootsh.Base.{
  ℕ, suc, zero, ◌+◌, ◌-◌, ◌≤◌, ◌<◌, ◌≡◌, refl, ap, ◌∙◌, Bool, true, false, some, List, [], ◌∷◌,
  ◌++◌, if◌then◌else◌, length, length-append, All, All-append, arith,
}
use rootsh.Text.{Bytes, codes, equal, equal_iff, is_other, IsText, c_string, c_string_eq}
use mathlib.Core.List.{map}
use rootsh.Config.Trim.{is_whitespace}
use rootsh.Config.TrimLaws.{IsCore}
use rootsh.Config.Split.{SplitResult, is_config_line, split_config_line, parse_bool}
use rootsh.Config.SplitLaws.{split_config_line-assignment, is_config_line-equals, is_no_comment}
use rootsh.Config.File.{
  max_path_len, Settings, Message, returned, continued, set_option, apply_split, read_line, fgets,
  file_lines, read_lines, read_config_file,
}

pub record Assignment : Type 0 where
  pub key : Bytes
  pub value : Bytes

-- What `fgets` has to return for the text to be one line.
abbrev pub is_plain : ℕ → Bool
is_plain c = if is_other 0 c then is_other b'\n' c else false

-- The key and the value have no whitespace at their ends, the key has two bytes or more, no `=` and
-- no `#` in front, and the line is shorter than MAXPATHLEN - 1.
pub record IsAssignment (a : Assignment) : Type 0 where
  pub key_core : IsCore a.key
  pub value_core : IsCore a.value
  pub key_length : 2 ≤ length a.key
  pub key_no_equals : All (is_other b'=') a.key
  pub key_no_comment : is_no_comment a.key ≡ true
  pub key_plain : All is_plain a.key
  pub value_plain : All is_plain a.value
  pub fits : length a.key + length a.value + 2 < max_path_len

abbrev pub AllAssignments : List Assignment → Type 0
AllAssignments [] = Unit
AllAssignments (a ∷ rest) = IsAssignment a × AllAssignments rest

abbrev line_of : Assignment → Bytes
line_of a = a.key ++ b'=' ∷ a.value

-- One line `key=value` for each assignment.
abbrev pub file_of : List Assignment → Bytes
file_of [] = []
file_of (a ∷ rest) = line_of a ++ b'\n' ∷ file_of rest

-- The last value that is assigned to a key, or the old one.
abbrev pub chosen {ℓ} : {A : Type ℓ} → Bytes → (Bytes → A) → A → List Assignment → A
chosen key parse old [] = old
chosen key parse old (a ∷ rest) =
    chosen key parse (if equal key a.key then parse a.value else old) rest

abbrev flag : Bytes → Bool
flag value = parse_bool (some value)

-- Every setting has the value that was last assigned to its key.
abbrev pub settings_after : Settings → List Assignment → Settings
settings_after s items = record {
  logtofile = chosen (codes "file") flag s.logtofile items;
  logdir = chosen (codes "file.dir") (λ v. v) s.logdir items;
  logtosyslog = chosen (codes "syslog") flag s.logtosyslog items;
  syslog_log_line_count = chosen (codes "syslog.linenumbering") flag s.syslog_log_line_count items;
  syslog_log_username = chosen (codes "syslog.username") flag s.syslog_log_username items;
  defaultshell = chosen (codes "defaultshell") (λ v. v) s.defaultshell items;
}

fgets-line :
    (room : ℕ) (line rest : Bytes)
    → All (is_other b'\n') line
    → length line < room
    → fgets room (line ++ b'\n' ∷ rest) ≡ (line ++ b'\n' ∷ [], rest)
unfolding fgets
fgets-line zero line rest h l = absurd (omega arith)
fgets-line (suc room) [] rest h l = refl
fgets-line (suc room) (c ∷ line) rest h l = ground (arith, fgets-line room line rest h.1)

file_lines-line :
    (room fuel : ℕ) (line rest : Bytes)
    → All (is_other b'\n') line
    → length line < room
    → file_lines room (suc fuel) (line ++ b'\n' ∷ rest)
      ≡ c_string (line ++ b'\n' ∷ []) ∷ file_lines room fuel rest
unfolding file_lines
file_lines-line room fuel [] rest h l = rw (fgets-line room [] rest h l)
file_lines-line room fuel (c ∷ line) rest h l = rw (fgets-line room (c ∷ line) rest h l)

set_option-assignment :
    (s : Settings) (a : Assignment)
    → length a.value ≤ max_path_len
    → set_option s a.key a.value ≡ continued (settings_after s (a ∷ [])) []
unfolding set_option
set_option-assignment s a h = ground (
  arith,
  equal_iff (codes "file") a.key,
  equal_iff (codes "file.dir") a.key,
  equal_iff (codes "syslog") a.key,
  equal_iff (codes "syslog.linenumbering") a.key,
  equal_iff (codes "syslog.username") a.key,
  equal_iff (codes "defaultshell") a.key,
)

-- The line as `fgets` leaves it.
abbrev buffer_of : Assignment → Bytes
buffer_of a = line_of a ++ b'\n' ∷ []

All-is_plain : (s : Bytes) → All is_plain s → All (is_other b'\n') s × All (is_other 0) s
All-is_plain [] h = (tt, tt)
All-is_plain (c ∷ s) h =
    let (newline, nul) = All-is_plain s h.1 in ((ground arith, newline), (ground arith, nul))

newline-blank : is_whitespace b'\n' ≡ true
unfolding is_whitespace
newline-blank = refl

module _ (a : Assignment) (ok : IsAssignment a) where
  line_of-no_newline : All (is_other b'\n') (line_of a)
  line_of-no_newline =
      All-append _ a.key (b'=' ∷ a.value) (All-is_plain a.key ok.key_plain).0
        (refl, (All-is_plain a.value ok.value_plain).0)

  buffer_of-IsText : IsText (buffer_of a)
  buffer_of-IsText =
      All-append _ (line_of a) (b'\n' ∷ [])
        (All-append _ a.key (b'=' ∷ a.value) (All-is_plain a.key ok.key_plain).1
          (refl, (All-is_plain a.value ok.value_plain).1))
        (refl, tt)

  length-line_of : length (line_of a) ≡ length a.key + length a.value + 1
  length-line_of = omega (arith, length-append a.key (b'=' ∷ a.value))

  split-buffer_of :
      split_config_line (buffer_of a) (max_path_len + 1) (max_path_len + 1)
      ≡ SplitResult.split a.key a.value
  split-buffer_of =
      let value_line : length (a.value ++ b'\n' ∷ []) ≡ length a.value + 1 =
        omega (arith, length-append a.value (b'\n' ∷ [])) in
      let filled =
        split_config_line-assignment [] a.key [] [] a.value (b'\n' ∷ []) (max_path_len + 1)
          (max_path_len + 1) tt tt tt (newline-blank, tt) ok.key_core ok.value_core ok.key_no_equals
          (rw append-nil ok.key_no_comment) (rw append-nil ok.key_length)
          (omega (arith, value_line, ap length ok.value_core.begins))
          (rw append-nil (omega (arith, ok.fits))) (omega (arith, value_line, ok.fits)) in
      rw append_assoc (rw append-nil at filled)

  read_line-assignment :
      (s : Settings) → read_line s (buffer_of a) ≡ continued (settings_after s (a ∷ [])) []
  unfolding read_line apply_split
  read_line-assignment s =
      rw
        (
          ap (λ t. is_config_line t) (append_assoc a.key (b'=' ∷ a.value) (b'\n' ∷ []))
              ∙ is_config_line-equals a.key (a.value ++ b'\n' ∷ []) ok.key_no_equals
                  ok.key_no_comment,
          split-buffer_of,
        )
        (set_option-assignment s a (omega (arith, ok.fits)))

file_lines-assignments :
    (room fuel : ℕ) (items : List Assignment)
    → AllAssignments items
    → length (file_of items) ≤ fuel
    → max_path_len ≤ room + 1
    → file_lines room fuel (file_of items) ≡ map buffer_of items
file_lines-assignments room zero [] ok h r = unfold file_lines in refl
file_lines-assignments room (suc fuel) [] ok h r = unfold file_lines in refl
file_lines-assignments room zero (a ∷ rest) ok h r =
    absurd (omega (arith, length-append (line_of a) (b'\n' ∷ file_of rest)))
file_lines-assignments room (suc fuel) (a ∷ rest) ok h r =
    let size = length-append (line_of a) (b'\n' ∷ file_of rest) in
    let text = buffer_of-IsText a ok.0 in
    file_lines-line room fuel (line_of a) (file_of rest) (line_of-no_newline a ok.0)
      (omega (arith, length-line_of a ok.0, ok.0.fits))
    ∙ rw (c_string_eq (buffer_of a) text) (
        ap (◌∷◌ (buffer_of a)) (file_lines-assignments room fuel rest ok.1 (omega (arith, size)) r))

read_lines-assignments :
    (s : Settings) (printed : List Message) (items : List Assignment)
    → AllAssignments items
    → read_lines s printed (map buffer_of items) ≡ returned true (settings_after s items) printed
unfolding read_lines
read_lines-assignments s printed [] ok = refl
read_lines-assignments s printed (a ∷ rest) ok =
    rw (read_line-assignment a ok.0 s, append-nil)
      (read_lines-assignments (settings_after s (a ∷ [])) printed rest ok.1)

-- A configuration file of well-formed assignments, one to a line, gives every setting the value
-- that was last assigned to its key, leaves the others, and prints nothing. Keys that are not known
-- have no effect.
pub read_config_file-assignments :
    (s : Settings) (items : List Assignment)
    → AllAssignments items
    → read_config_file s (some (file_of items)) ≡ returned true (settings_after s items) []
unfolding read_config_file
read_config_file-assignments s items ok =
    rw
      (file_lines-assignments (max_path_len - 1) (length (file_of items)) items ok (omega arith)
        (omega arith))
      (read_lines-assignments s [] items ok)
