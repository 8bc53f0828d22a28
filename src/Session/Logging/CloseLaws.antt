-- ===== src/Session/Logging/CloseLaws.antt =====
-- The log file is renamed at the end exactly if it was left alone.
use rootsh.Base.{◌≡◌, Option, none, some, List, ◌∷◌, ◌++◌, take}
use rootsh.Text.{Bytes, codes}
use rootsh.Session.Calls.{Call, rename_path}
use rootsh.Session.State.{Session, returned, Action}

-- The two names, where the last call renamed a file.
abbrev pub renamed : List Call → Option (Bytes × Bytes)
renamed (rename_path old new ∷ calls) = some (old, new)
renamed calls = none

-- The log's name, and the same with `.closed` behind it, in a buffer of 4096 bytes.
abbrev pub closed_name : Bytes → Bytes × Bytes
closed_name name = (name, take 4095 (name ++ codes ".closed"))

-- The name of the log file is this.
record IsNamed (name : Bytes) (t : Session) : Type 0 where
  same : t.log_file_name ≡ name

-- An action that returns leaves a history whose last call renamed no file.
record Leaves {A : Type 0} (m : Action A) : Type 0 where
  run : (s : Session) (a : A) → (m s).0 ≡ returned a → renamed (m s).1.calls ≡ none
