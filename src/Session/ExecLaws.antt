-- ===== src/Session/ExecLaws.antt =====
-- What `execShell` runs, and under which name.
use rootsh.Base.{
  ◌≡◌, refl, Bool, true, false, Option, none, some, [], ◌∷◌, ◌++◌, if◌then◌else◌, All, arith,
}
use rootsh.Text.{Bytes, codes, is_other}
use rootsh.Session.State.{Session}
use rootsh.Session.Exec.{
  exec_call, dash_shell, behind_slash, program_name, with_name, executed, shell_arguments,
  command_arguments,
}

behind_slash-none : (name : Bytes) → All (is_other b'/') name → behind_slash name ≡ none
unfolding behind_slash
behind_slash-none [] h = refl
behind_slash-none (c ∷ name) h = rw (behind_slash-none name h.1) (ground (arith, h.0))

behind_slash-append :
    (dir name : Bytes) → All (is_other b'/') name → behind_slash (dir ++ b'/' ∷ name) ≡ some name
unfolding behind_slash
behind_slash-append [] name h = rw (behind_slash-none name h)
behind_slash-append (c ∷ dir) name h = rw (behind_slash-append dir name h)

dash_shell-root : (path : Bytes) → dash_shell (b'/' ∷ path) ≡ some (b'-' ∷ path)
unfolding dash_shell
dash_shell-root path = by_rest (dash_shell path)
  where
    by_rest :
        (r : Option Bytes)
        → elim r [ none ↦ some (b'-' ∷ path) | some dashed ↦ some (b'-' ∷ path) ]
          ≡ some (b'-' ∷ path)
    by_rest none = refl
    by_rest (some dashed) = refl

program_name-su :
    (user dir name : Bytes) (login : Bool)
    → All (is_other b'/') name
    → program_name (some user) login (b'/' ∷ dir ++ b'/' ∷ name) ≡ some name
unfolding program_name
program_name-su user dir name true h =
    rw (dash_shell-root (dir ++ b'/' ∷ name), behind_slash-append (b'/' ∷ dir) name h) refl
program_name-su user dir name false h = behind_slash-append (b'/' ∷ dir) name h

su_arguments :
    (user : Bytes) (commands : Option Bytes) (login : Bool)
    → shell_arguments (some user) login commands ≡ (
        if login
        then codes "-" ∷ user ∷ command_arguments commands
        else user ∷ command_arguments commands)
unfolding shell_arguments
su_arguments user commands true = refl
su_arguments user commands false = refl

module _ (sucmd : Bytes) (s : Session) (commands : Option Bytes) where
  -- For another user, su is run for that user, whichever shell was found: `dir` and `name` are the
  -- parts of the absolute path of su, and a login shell adds the argument `-`.
  pub exec_call-su :
      (user shell dir name : Bytes)
      → s.run_as_user ≡ some user
      → sucmd ≡ b'/' ∷ dir ++ b'/' ∷ name
      → All (is_other b'/') name
      → exec_call sucmd s shell commands
        ≡ some (
          sucmd,
          name
              ∷ (if s.use_login_shell
                  then codes "-" ∷ user ∷ command_arguments commands
                  else user ∷ command_arguments commands),
        )
  unfolding exec_call executed with_name
  exec_call-su user shell dir name as_user path h = simp (
    as_user,
    path,
    program_name-su user dir name s.use_login_shell h,
    su_arguments user commands s.use_login_shell,
  )

  -- An interactive shell runs under its basename, a login shell under its path with the first slash
  -- made a dash. Both get the commands behind `-c`.
  pub exec_call-shell :
      (dir name : Bytes)
      → s.run_as_user ≡ none
      → All (is_other b'/') name
      → exec_call sucmd s (b'/' ∷ dir ++ b'/' ∷ name) commands
        ≡ some (
          b'/' ∷ dir ++ b'/' ∷ name,
          if s.use_login_shell
              then (b'-' ∷ dir ++ b'/' ∷ name) ∷ command_arguments commands
              else name ∷ codes "-i" ∷ command_arguments commands,
        )
  unfolding exec_call executed with_name program_name shell_arguments
  exec_call-shell dir name self h = by_login s.use_login_shell refl
    where
      by_login :
          (login : Bool)
          → s.use_login_shell ≡ login
          → exec_call sucmd s (b'/' ∷ dir ++ b'/' ∷ name) commands
            ≡ some (
              b'/' ∷ dir ++ b'/' ∷ name,
              if s.use_login_shell
                  then (b'-' ∷ dir ++ b'/' ∷ name) ∷ command_arguments commands
                  else name ∷ codes "-i" ∷ command_arguments commands,
            )
      by_login true login = rw (self, login, dash_shell-root (dir ++ b'/' ∷ name)) refl
      by_login false no_login = rw (self, no_login, behind_slash-append (b'/' ∷ dir) name h) refl
