-- ===== src/Session/EnvironmentLaws.antt =====
-- What `getenv` finds behind `putenv`, and the session's name in the environment of
-- the shell.
use rootsh.Base.{
  ℕ, suc, ◌+◌, ◌-◌, ◌≤◌, ◌≡◌, refl, sym, ap, ◌∙◌, ◌≢◌, Bool, true, false, ◌&&◌, Bool-cases, inl,
  inr, Option, none, some, List, [], ◌∷◌, ◌++◌, ◌==◌, length, take, drop, take_all,
  take-append_left, drop-append_left, length-append, length-take, arith,
}
use rootsh.Text.{Bytes, codes, equal, equal_iff}
use rootsh.Session.Environment.{Environ, name_of, getenv, putenv}
use rootsh.Session.State.{Session, returned}
use rootsh.Session.Setup.{
  Accounts, default_shell, is_listed, is_self, replace_shell, check_shell, entry_of_user,
  shell_of_user, setupshell, setupusermode,
}
use rootsh.Session.StartUp.{make_session_id, note_session, session_id_size}

-- The test of `getenv` on an entry.
abbrev holds_value : Bytes → Bytes → Bool
holds_value name entry =
    equal (take (length name) entry) name && equal (take 1 (drop (length name) entry)) (codes "=")

name_of-entry : (name value : Bytes) → name_of name ≡ name → name_of (name ++ b'=' ∷ value) ≡ name
unfolding name_of
name_of-entry [] value plain = refl
name_of-entry (c ∷ name) value plain = elim (Bool-cases (c == b'=')) [
  | inl equals ↦ cc (rw equals at plain)
  | inr other ↦
      let rest : name_of name ≡ name = ap (drop 1) (rw other at plain) in
      rw (other, name_of-entry name value rest) refl
]

equal_self : (s : Bytes) → equal s s ≡ true
equal_self s = (equal_iff s s).1 refl

holds_value-entry : (name value : Bytes) → holds_value name (name ++ b'=' ∷ value) ≡ true
unfolding equal
holds_value-entry name value =
    rw (take-append_left name (b'=' ∷ value), drop-append_left name (b'=' ∷ value), equal_self name)
      refl

value_of-entry : (name value : Bytes) → drop (length name + 1) (name ++ b'=' ∷ value) ≡ value
value_of-entry [] value = refl
value_of-entry (c ∷ name) value =
    let longer : suc (length name) + 1 ≡ suc (length name + 1) = omega arith in
    rw longer (value_of-entry name value)

holds_value-name_of :
    (name entry : Bytes)
    → name_of name ≡ name
    → holds_value name entry ≡ true
    → name_of entry ≡ name
unfolding name_of equal
holds_value-name_of [] [] plain holds = refl
holds_value-name_of [] (d ∷ entry) plain holds = elim (Bool-cases (d == b'=')) [
  | inl equals ↦ rw equals refl
  | inr other ↦ cc (rw other at holds)
]
holds_value-name_of (c ∷ name) [] plain holds = cc
holds_value-name_of (c ∷ name) (d ∷ entry) plain holds = elim (Bool-cases (d == c)) [
  | inl same ↦ elim (Bool-cases (c == b'=')) [
    | inl equals ↦ cc (rw equals at plain)
    | inr other ↦
        let is : d ≡ c = ground arith in
        let rest : name_of name ≡ name = ap (drop 1) (rw other at plain) in
        rw (is, other) (ap (λ t. c ∷ t) (holds_value-name_of name entry rest (rw same at holds)))
  ]
  | inr differs ↦ cc (rw differs at holds)
]

module _ (name value : Bytes) (plain : name_of name ≡ name) where
  pub getenv-putenv :
      (entries : List Bytes) → getenv (putenv entries (name ++ b'=' ∷ value)) name ≡ some value
  unfolding getenv putenv
  getenv-putenv [] = rw (holds_value-entry name value, value_of-entry name value) refl
  getenv-putenv (old ∷ entries) =
      elim (Bool-cases (equal (name_of old) (name_of (name ++ b'=' ∷ value)))) [
        | inl same ↦ rw (same, holds_value-entry name value, value_of-entry name value) refl
        | inr other ↦ elim (Bool-cases (holds_value name old)) [
          | inl holds ↦
              let is : name_of old ≡ name_of (name ++ b'=' ∷ value) =
                holds_value-name_of name old plain holds ∙ sym (name_of-entry name value plain) in
              cc ((equal_iff _ _).1 is)
          | inr missed ↦ rw (other, missed) (getenv-putenv entries)
        ]
      ]

session_id-fits : (pid : ℕ) (name : Bytes) → length (make_session_id pid name) ≤ session_id_size - 1
unfolding make_session_id
session_id-fits pid name = rw (length-take (session_id_size - 1) _) (omega arith)

session_entry :
    (id : Bytes)
    → length id ≤ session_id_size - 1
    → take (session_id_size + 17 - 1) (codes "ROOTSH_SESSIONID=" ++ id)
      ≡ codes "ROOTSH_SESSIONID=" ++ id
session_entry id short = take_all (session_id_size + 17 - 1) (codes "ROOTSH_SESSIONID=" ++ id) fits
  where
    fits : length (codes "ROOTSH_SESSIONID=" ++ id) ≤ session_id_size + 17 - 1
    fits = rw (length-append (codes "ROOTSH_SESSIONID=") id) (omega arith)

plain_name : name_of (codes "ROOTSH_SESSIONID") ≡ codes "ROOTSH_SESSIONID"
unfolding name_of
plain_name = refl

-- The entry that `main` makes of the session's name fits its buffer, and takes the place of one of the
-- same name, so that the name is found whole, whatever the environment was before.
note_session-getenv :
    (pid : ℕ) (prog_name : Bytes) (env : Environ)
    → getenv (note_session (make_session_id pid prog_name) env).entries (codes "ROOTSH_SESSIONID")
      ≡ some (make_session_id pid prog_name)
unfolding note_session
note_session-getenv pid prog_name env =
    let id = make_session_id pid prog_name in
    rw (session_entry id (session_id-fits pid prog_name))
      (getenv-putenv (codes "ROOTSH_SESSIONID") id plain_name env.entries)

-- An entry of another name changes nothing of the value.
module _ (name entry : Bytes) (plain : name_of name ≡ name) (apart : name_of entry ≢ name) where
  no_value : holds_value name entry ≡ false
  no_value = elim (Bool-cases (holds_value name entry)) [
    | inl holds ↦ absurd (apart (holds_value-name_of name entry plain holds))
    | inr missed ↦ missed
  ]

  getenv-putenv_other :
      (entries : List Bytes) → getenv (putenv entries entry) name ≡ getenv entries name
  unfolding getenv putenv
  getenv-putenv_other [] = rw no_value refl
  getenv-putenv_other (old ∷ entries) = elim (Bool-cases (equal (name_of old) (name_of entry))) [
    | inl same ↦
        let is : name_of old ≡ name_of entry = (equal_iff (name_of old) (name_of entry)).0 same in
        elim (Bool-cases (holds_value name old)) [
          | inl holds ↦ absurd (apart (sym is ∙ holds_value-name_of name old plain holds))
          | inr missed ↦ rw (same, no_value, missed) refl
        ]
    | inr other ↦ rw (other, getenv-putenv_other entries) refl
  ]

shell_entry-name : (shell : Bytes) → name_of (codes "SHELL=" ++ shell) ≢ codes "ROOTSH_SESSIONID"
shell_entry-name shell same =
    let name : name_of (codes "SHELL=" ++ shell) ≡ codes "SHELL" =
      name_of-entry (codes "SHELL") shell plain_shell in
    differ (sym name ∙ same)
  where
    plain_shell : name_of (codes "SHELL") ≡ codes "SHELL"
    plain_shell = unfold name_of in refl

    differ : codes "SHELL" ≢ codes "ROOTSH_SESSIONID"
    differ e = cc

-- Of the environment, `setupshell` changes SHELL alone.
module _ (acc : Accounts) (env : Environ) (s : Session) where
  abbrev Same : Environ → Type 0
  Same env' =
      getenv env'.entries (codes "ROOTSH_SESSIONID") ≡ getenv env.entries (codes "ROOTSH_SESSIONID")

  replace_shell-Same : (default : Option Bytes) → Same (replace_shell default env s).1
  unfolding replace_shell
  replace_shell-Same none = refl
  replace_shell-Same (some shell) =
      getenv-putenv_other (codes "ROOTSH_SESSIONID") (codes "SHELL=" ++ shell) plain_name
        (shell_entry-name shell) env.entries

  check_shell-Same : (shell : Bytes) → Same (check_shell acc shell env s).1
  unfolding check_shell
  check_shell-Same shell = elim (Bool-cases (is_listed shell acc.shells)) [
    | inl listed ↦ elim (Bool-cases (is_self s.prog_name shell)) [
      | inl self ↦ rw (listed, self) (replace_shell-Same (default_shell s))
      | inr other ↦ rw (listed, other) refl
    ]
    | inr missing ↦ rw missing refl
  ]

  entry_of_user-Same : (entry : Option (Option Bytes)) → Same (entry_of_user acc entry env s).1
  unfolding entry_of_user
  entry_of_user-Same none = refl
  entry_of_user-Same (some none) = refl
  entry_of_user-Same (some (some shell)) = check_shell-Same shell

  shell_of_user-Same : (value : Option Bytes) → Same (shell_of_user acc value env s).1
  unfolding shell_of_user
  shell_of_user-Same none = entry_of_user-Same (acc.entry_shell s.user_name)
  shell_of_user-Same (some shell) = check_shell-Same shell

  setupshell-Same : Same (setupshell acc env s).1
  unfolding setupshell
  setupshell-Same = shell_of_user-Same (getenv env.entries (codes "SHELL"))

same_mode :
    (acc : Accounts) (env : Environ) (s : Session)
    → s.run_as_user ≡ none
    → setupusermode acc env s ≡ (returned true, env, s)
unfolding setupusermode
same_mode acc env s h = rw h

-- Without `-u`, the environment that the shell is given, after `putenv`, `setupusermode` and
-- `setupshell`, has the session's name, whole, in ROOTSH_SESSIONID, whatever it was before: the entry
-- fits its buffer and takes the place of one of the same name, and the two functions leave it.
pub setupshell-session_id :
    (acc : Accounts) (pid : ℕ) (env : Environ) (s : Session)
    → s.run_as_user ≡ none
    → let id = make_session_id pid s.prog_name in
      let (_, moded, t) = setupusermode acc (note_session id env) s in
      let (_, given, _) = setupshell acc moded t in
      getenv given.entries (codes "ROOTSH_SESSIONID") ≡ some id
setupshell-session_id acc pid env s same_user =
    let noted = note_session (make_session_id pid s.prog_name) env in
    rw (same_mode acc noted s same_user)
      (setupshell-Same acc noted s ∙ note_session-getenv pid s.prog_name env)

-- The session's name changes no other variable.
pub note_session-other :
    (pid : ℕ) (prog_name name : Bytes) (env : Environ)
    → name_of name ≡ name
    → codes "ROOTSH_SESSIONID" ≢ name
    → getenv (note_session (make_session_id pid prog_name) env).entries name
      ≡ getenv env.entries name
unfolding note_session
note_session-other pid prog_name name env plain apart =
    let id = make_session_id pid prog_name in
    rw (session_entry id (session_id-fits pid prog_name)) (
      getenv-putenv_other name (codes "ROOTSH_SESSIONID=" ++ id) plain
        (λ same. apart (sym (name_of-entry (codes "ROOTSH_SESSIONID") id plain_name) ∙ same))
        env.entries)
