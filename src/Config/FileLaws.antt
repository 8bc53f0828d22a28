-- ===== src/Config/FileLaws.antt =====
-- What `readConfigFile` does to the settings.
use rootsh.Base.{
  ◌+◌, ◌≤◌, ◌≡◌, inl, inr, refl, true, Option, none, some, List, [], ◌∷◌, ◌++◌, length, arith,
  Bool-cases,
}
use rootsh.Text.{Bytes}
use rootsh.Config.Split.{SplitResult, is_config_line, split_config_line}
use rootsh.Config.SplitLaws.{split_config_line-fits}
use rootsh.Config.File.{
  max_path_len, Settings, Message, ReadResult, returned, LineResult, continued, cleanup, set_option,
  apply_split, read_line, resume, read_lines, read_config_file,
}

-- The paths fit their buffers of MAXPATHLEN + 1 bytes with the closing NUL.
pub record IsBounded (s : Settings) : Type 0 where
  pub logdir_fits : length s.logdir ≤ max_path_len
  pub defaultshell_fits : length s.defaultshell ≤ max_path_len

-- A turn of the loop goes on with bounded settings, or crashes; it never gives up.
abbrev GoesOn : LineResult → Type 0
GoesOn (continued s _) = IsBounded s
GoesOn (cleanup _ _) = ⊥
GoesOn LineResult.crashed = Unit

set_option-GoesOn :
    (s : Settings) (key value : Bytes)
    → IsBounded s
    → length value ≤ max_path_len
    → GoesOn (set_option s key value)
unfolding set_option
set_option-GoesOn s key value b h = ground arith

apply_split-GoesOn :
    (s : Settings) (line : Bytes) (r : SplitResult)
    → IsBounded s
    → split_config_line line (max_path_len + 1) (max_path_len + 1) ≡ r
    → GoesOn (apply_split s line r)
unfolding apply_split
apply_split-GoesOn s line SplitResult.refused b h = b
apply_split-GoesOn s line SplitResult.crashed b h = tt
apply_split-GoesOn s line (SplitResult.split key value) b h =
    let fits = split_config_line-fits line (max_path_len + 1) (max_path_len + 1) h in
    set_option-GoesOn s key value b (omega (arith, fits.1))

read_line-GoesOn : (s : Settings) (line : Bytes) → IsBounded s → GoesOn (read_line s line)
unfolding read_line
read_line-GoesOn s line b = elim (Bool-cases (is_config_line line)) [
  | inl config ↦ rw config (apply_split-GoesOn s line _ b refl)
  | inr other ↦ rw other b
]

-- The function returned `true` and left bounded settings, or it crashed.
abbrev pub Succeeds : ReadResult → Type 0
Succeeds (returned result s _) = (result ≡ true) × IsBounded s
Succeeds ReadResult.crashed = Unit

resume-Succeeds :
    (next : Settings → List Message → ReadResult) (printed : List Message) (r : LineResult)
    → ((s : Settings) (p : List Message) → IsBounded s → Succeeds (next s p))
    → GoesOn r
    → Succeeds (resume next printed r)
unfolding resume
resume-Succeeds next printed (continued s messages) later b = later s (printed ++ messages) b
resume-Succeeds next printed (cleanup s message) later b = absurd b
resume-Succeeds next printed LineResult.crashed later b = tt

read_lines-Succeeds :
    (s : Settings) (printed : List Message) (lines : List Bytes)
    → IsBounded s
    → Succeeds (read_lines s printed lines)
unfolding read_lines
read_lines-Succeeds s printed [] b = (refl, b)
read_lines-Succeeds s printed (line ∷ lines) b =
    resume-Succeeds (λ s' printed'. read_lines s' printed' lines) printed (read_line s line)
      (λ s' p b'. read_lines-Succeeds s' p lines b') (read_line-GoesOn s line b)

-- Whatever the file holds, `readConfigFile` does not return `false`: it returns `true`, with the
-- paths still within their buffers, unless it crashes in `splitConfigLine`.
pub read_config_file-Succeeds :
    (s : Settings) (file : Option Bytes) → IsBounded s → Succeeds (read_config_file s file)
unfolding read_config_file
read_config_file-Succeeds s none b = (refl, b)
read_config_file-Succeeds s (some file) b = read_lines-Succeeds s [] _ b
