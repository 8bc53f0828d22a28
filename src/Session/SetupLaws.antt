-- ===== src/Session/SetupLaws.antt =====
-- Which shell `setupshell` allows, and what `setupusermode` leaves of the environment.
use rootsh.Base.{
  ℕ, ◌≤◌, ◌≡◌, ◌≢◌, refl, ap, ◌∙◌, ◌⊎◌, inl, inr, Bool, true, false, Bool-cases, Option, none, some,
  List, [], ◌∷◌, ◌++◌, ltb, if◌then◌else◌, length, All, arith,
}
use mathlib.Core.List.{Mem, mem-cons_self, mem-cons_of_mem}
use rootsh.Text.{Bytes, codes, equal, equal_iff}
use rootsh.Basename.{basename}
use rootsh.Basename.Laws.{is_slash, is_name_byte, basename-element}
use rootsh.Session.Calls.{print_error}
use rootsh.Session.State.{Session, Outcome, returned, crashed}
use rootsh.Session.Environment.{
  Environ, getenv, save_value, add_saved, is_saved, putenv, put_all, restore_from, saveenv,
  clearenv, restoreenv,
}
use rootsh.Session.Setup.{
  Accounts, default_shell, is_listed, is_self, replace_shell, check_shell, entry_of_user,
  shell_of_user, setupshell, clean_environment, become_user, setupusermode,
}

-- The name that the program was called by, or that behind the dash of a login shell.
abbrev pub IsCalled : Session → Bytes → Type 0
IsCalled s name = (s.prog_name ≡ name) ⊎ (s.prog_name ≡ b'-' ∷ name)

-- A shell from /etc/shells that is not the program, or the default shell for a login.
abbrev pub Allowed : Accounts → Session → Session → Bytes → Bytes → Type 0
Allowed acc before after program shell =
    (Mem shell acc.shells × (shell ≢ program))
    ⊎ ((default_shell before ≡ some shell) × (after.isa_login_shell ≡ true))

is_listed-Mem :
    (shell : Bytes) (shells : List Bytes) → is_listed shell shells ≡ true → Mem shell shells
unfolding is_listed
is_listed-Mem shell [] h = cc
is_listed-Mem shell (valid ∷ shells) h = elim (Bool-cases (equal valid shell)) [
  | inl same ↦ let e = (equal_iff valid shell).0 same in rw e mem-cons_self
  | inr other ↦ mem-cons_of_mem valid (is_listed-Mem shell shells (rw other at h))
]

-- A program of this name, with a directory before it, is found out.
is_self-IsCalled :
    (s : Session) (shell : Bytes) (c : ℕ) (name : Bytes)
    → IsCalled s (c ∷ name)
    → basename (some shell) ≡ c ∷ name
    → is_self s.prog_name shell ≡ true
unfolding is_self
is_self-IsCalled s shell c name (inl plain) last =
    let same = (equal_iff (c ∷ name) (c ∷ name)).1 refl in rw (plain, last, same) (ground arith)
is_self-IsCalled s shell c name (inr dash) last =
    let same = (equal_iff (c ∷ name) (c ∷ name)).1 refl in rw (dash, last, same) (ground arith)

module _ (acc : Accounts) (env : Environ) (s : Session) (shell : Bytes) (d c : ℕ)
    (dir name slashes : Bytes) (hc : is_name_byte c ≡ true) (hn : All is_name_byte name)
    (hs : All is_slash slashes) (called : IsCalled s (c ∷ name)) where
  -- A path of the program, with a directory before its name, and any slashes behind it.
  abbrev program : Bytes
  program = d ∷ dir ++ (b'/' ∷ c ∷ name ++ slashes)

  other_program : is_self s.prog_name shell ≡ false → shell ≢ program
  other_program other same =
      let last : basename (some shell) ≡ c ∷ name =
        ap (λ path. basename (some path)) same ∙ basename-element d c dir name slashes hc hn hs in
      let found = is_self-IsCalled s shell c name called last in cc

  replace_shell-Allowed :
      (default : Option Bytes)
      → default_shell s ≡ default
      → (replace_shell default env s).0 ≡ returned (some shell)
      → Allowed acc s (replace_shell default env s).2 program shell
  unfolding replace_shell
  replace_shell-Allowed none e h = cc
  replace_shell-Allowed (some d) e h =
      let same : d ≡ shell = ground arith in inr (rw e (ap some same), refl)

  check_shell-Allowed :
      (tried : Bytes)
      → (check_shell acc tried env s).0 ≡ returned (some shell)
      → Allowed acc s (check_shell acc tried env s).2 program shell
  unfolding check_shell
  check_shell-Allowed tried h =
      by_tests (is_listed tried acc.shells) (is_self s.prog_name tried) refl refl h
    where
      outcome : Bool → Bool → Outcome (Option Bytes) × Environ × Session
      outcome l o =
          if l
          then if o then replace_shell (default_shell s) env s else (returned (some tried), env, s)
          else (
            returned none,
            env,
            record s { calls = print_error (tried ++ codes " is not in /etc/shells\n") ∷ s.calls },
          )

      by_tests :
          (l o : Bool)
          → is_listed tried acc.shells ≡ l
          → is_self s.prog_name tried ≡ o
          → (outcome l o).0 ≡ returned (some shell)
          → Allowed acc s (outcome l o).2 program shell
      by_tests false o e f k = cc
      by_tests true true e f k = replace_shell-Allowed (default_shell s) refl k
      by_tests true false e f k =
          let same : tried ≡ shell = ground (arith, k) in
          inl (is_listed-Mem shell acc.shells (rw same at e), other_program (rw same at f))

  entry_of_user-Allowed :
      (entry : Option (Option Bytes))
      → (entry_of_user acc entry env s).0 ≡ returned (some shell)
      → Allowed acc s (entry_of_user acc entry env s).2 program shell
  unfolding entry_of_user
  entry_of_user-Allowed none h = cc
  entry_of_user-Allowed (some none) h = cc
  entry_of_user-Allowed (some (some tried)) h = check_shell-Allowed tried h

  shell_of_user-Allowed :
      (value : Option Bytes)
      → (shell_of_user acc value env s).0 ≡ returned (some shell)
      → Allowed acc s (shell_of_user acc value env s).2 program shell
  unfolding shell_of_user
  shell_of_user-Allowed none h = entry_of_user-Allowed (acc.entry_shell s.user_name) h
  shell_of_user-Allowed (some tried) h = check_shell-Allowed tried h

  -- A shell that `setupshell` returns is among those of /etc/shells and is not the path of a program
  -- with the name that rootsh was called by, whatever directory stands before the name and whatever
  -- slashes behind it; or it is the configured default shell, and the session is then one of a login
  -- shell. The name is not empty and has no slash; called by it, rootsh may have a dash before it.
  -- The directory is not empty, so that neither the bare name nor a path right under the root is
  -- covered.
  pub setupshell-Allowed :
      (setupshell acc env s).0 ≡ returned (some shell)
      → Allowed acc s (setupshell acc env s).2 program shell
  unfolding setupshell
  setupshell-Allowed h = shell_of_user-Allowed (getenv env.entries (codes "SHELL")) h

terminal_entry :
    (env : Environ) (value : Bytes)
    → env.has_clearenv ≡ true
    → env.saved ≡ none
    → getenv env.entries (codes "TERM") ≡ some value
    → clean_environment env
      ≡ some (record env {
        terminated = true;
        entries = (codes "TERM=" ++ value) ∷ [];
        saved = some ((codes "TERM=" ++ value) ∷ []);
      })
unfolding clean_environment restoreenv saveenv clearenv restore_from put_all putenv save_value
    add_saved is_saved
terminal_entry env value cleared fresh set = rw (cleared, fresh, set)

-- The program's own `clearenv` leaves nothing that `putenv` can read.
own_clearenv :
    (env : Environ) (value : Bytes)
    → env.has_clearenv ≡ false
    → env.saved ≡ none
    → getenv env.entries (codes "TERM") ≡ some value
    → clean_environment env ≡ none
unfolding clean_environment restoreenv saveenv clearenv restore_from save_value add_saved is_saved
own_clearenv env value own fresh set = rw (own, fresh, set)

no_entry :
    (env : Environ)
    → env.saved ≡ none
    → getenv env.entries (codes "TERM") ≡ none
    → clean_environment env ≡ none
unfolding clean_environment restoreenv saveenv clearenv restore_from save_value
no_entry env fresh unset = rw (fresh, unset)

module _ (acc : Accounts) (env : Environ) (s : Session) (user : Bytes) (entry : Option Bytes) where
  -- With the C library's `clearenv`: for a known user with a name of at most 64 bytes, `setupusermode`
  -- succeeds where TERM is set and nothing was saved before, and TERM with its value is then the only
  -- variable of the environment.
  pub setupusermode-cleaned :
      (value : Bytes)
      → s.run_as_user ≡ some user
      → length user ≤ 64
      → acc.entry_shell user ≡ some entry
      → env.has_clearenv ≡ true
      → env.saved ≡ none
      → getenv env.entries (codes "TERM") ≡ some value
      → let (result, env', s') = setupusermode acc env s in
        (result ≡ returned true) × (env'.entries ≡ (codes "TERM=" ++ value) ∷ []) × (s' ≡ s)
  unfolding setupusermode become_user
  setupusermode-cleaned value as_user short known cleared fresh set =
      let fits : ltb 64 (length user) ≡ false = ground arith in
      rw (as_user, fits, known, terminal_entry env value cleared fresh set) (refl, refl, refl)

  -- With the program's own `clearenv`, which is compiled where the C library has none, the same does not
  -- succeed: `restoreenv` has `putenv` read an environment that holds one pointer, never written to.
  pub setupusermode-own_clearenv :
      (value : Bytes)
      → s.run_as_user ≡ some user
      → length user ≤ 64
      → acc.entry_shell user ≡ some entry
      → env.has_clearenv ≡ false
      → env.saved ≡ none
      → getenv env.entries (codes "TERM") ≡ some value
      → (setupusermode acc env s).0 ≡ crashed
  unfolding setupusermode become_user
  setupusermode-own_clearenv value as_user short known own fresh set =
      let fits : ltb 64 (length user) ≡ false = ground arith in
      rw (as_user, fits, known, own_clearenv env value own fresh set) refl

  -- For the same user, and nothing saved before, `setupusermode` reads through the null pointer where
  -- TERM is not set.
  pub setupusermode-crashed :
      s.run_as_user ≡ some user
      → length user ≤ 64
      → acc.entry_shell user ≡ some entry
      → env.saved ≡ none
      → getenv env.entries (codes "TERM") ≡ none
      → (setupusermode acc env s).0 ≡ crashed
  unfolding setupusermode become_user
  setupusermode-crashed as_user short known fresh unset =
      let fits : ltb 64 (length user) ≡ false = ground arith in
      rw (as_user, fits, known, no_entry env fresh unset) refl
