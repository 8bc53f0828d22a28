-- ===== src/Session/Logging/BeginLaws.antt =====
-- Where the log goes, and what `beginlogging` requires.
use rootsh.Base.{
  ℕ, ◌-◌, ◌≤◌, ◌<◌, Option, none, some, [], ◌∷◌, ◌++◌, ◌==◌, length, length-take, arith, Bool-cases,
  inl, inr,
}
use rootsh.Text.{Bytes, codes}
use rootsh.Config.File.{max_path_len}
use rootsh.Session.Calls.{System}
use rootsh.Session.State.{Session}
use rootsh.Session.Logging.Begin.{
  snprintf, name_size, def_log_file_name, choose_name, standalone_name, user_path, in_directory,
}

length-snprintf-le : (size : ℕ) (text : Bytes) → length (snprintf size text) ≤ size - 1
length-snprintf-le size text = omega (arith, length-take (size - 1) text)

in_directory-fits : (dir name : Bytes) → length (in_directory dir name) < max_path_len - 9
in_directory-fits dir name =
    omega (arith, length-snprintf-le name_size (dir ++ (codes "/" ++ name)))

user_path-fits : (name : Bytes) → length (user_path name) < max_path_len - 9
unfolding user_path
user_path-fits [] = omega (arith, length-snprintf-le name_size (codes "./"))
user_path-fits (c ∷ name) = elim (Bool-cases (c == b'/')) [
  | inl absolute ↦ rw absolute (omega (arith, length-snprintf-le name_size (c ∷ name)))
  | inr relative ↦
      rw relative (omega (arith, length-snprintf-le name_size (codes "./" ++ c ∷ name)))
]

standalone_name-fits :
    (logdir default : Bytes) (file dir : Option Bytes)
    → length (standalone_name logdir default file dir) < max_path_len - 9
unfolding standalone_name
standalone_name-fits logdir default (some name) (some d) = in_directory-fits d name
standalone_name-fits logdir default (some name) none = user_path-fits name
standalone_name-fits logdir default none (some d) = in_directory-fits d default
standalone_name-fits logdir default none none = in_directory-fits logdir default

-- Whatever the options, the name of the log file and its NUL fit `logFileName`.
pub choose_name-fits :
    (sys : System) (now : ℕ) (s : Session) → length (choose_name sys now s) < max_path_len - 9
unfolding choose_name
choose_name-fits sys now s = elim (Bool-cases s.standalone) [
  | inl alone ↦ rw alone (
      standalone_name-fits s.settings.logdir (def_log_file_name sys now s) s.user_log_file_name
        s.user_log_file_dir)
  | inr sudo ↦ rw sudo (in_directory-fits s.settings.logdir (def_log_file_name sys now s))
]
