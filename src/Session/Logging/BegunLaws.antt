-- ===== src/Session/Logging/BegunLaws.antt =====
-- Which log file a successful `beginlogging` leaves.
use rootsh.Base.{
  ℕ, ◌≡◌, refl, Bool, true, false, not, ◌&&◌, Option, none, some, List, ◌∷◌, if◌then◌else◌, arith,
}
use rootsh.Text.{Bytes, codes}
use rootsh.Session.Calls.{Call, System, Stat, open_append, fstat_fd, print_error}
use rootsh.Session.State.{
  Session, Outcome, returned, Action, pure, crash, modify, call, ◌>>=◌, ◌>>◌,
}
use rootsh.Session.Rules.{
  Gives, Gives-bind, Ensures, Ensures-then, Keeps, Keeps-bind, Keeps-gets, Keeps-pure,
}
use rootsh.Session.Logging.Begin.{
  choose_name, acting_user, fail_file, note_start, remember_identity, open_log_file, begin_syslog,
  begin_destinations, beginlogging,
}
use rootsh.Session.Closed.Begin.{on_note_start, on_begin_syslog}
use rootsh.Session.Extends.{Extends, Extends-Closed}

-- The descriptor of the log file is what `open` gave for `path`, and the inode and the device are
-- those that `fstat` gave for it.
pub record Begun (sys : System) (path : Bytes) (t : Session) : Type 0 where
  pub before : List Call
  pub opened : sys.opened before path ≡ some t.log_file
  pub found :
      sys.fstat (open_append path ∷ before) t.log_file
      ≡ some (record { inode = t.log_inode; device = t.log_dev })

-- `acting_user` only reads.
pub acting_user-kept : {P : Session → Type 0} (sys : System) → Keeps P (acting_user sys)
acting_user-kept {P} sys = Keeps-bind (Keeps-gets _) by_user
  where
    by_login :
        (login : Option Bytes)
        → Keeps {A = Bytes} P (elim login [ some name ↦ pure name | none ↦ crash ])
    by_login none = record { run = λ s h. h }
    by_login (some name) = Keeps-pure name

    by_user :
        (user : Option Bytes)
        → Keeps {A = Bytes} P (elim user [
          | some name ↦ pure name
          | none ↦ elim sys.login_name [ some name ↦ pure name | none ↦ crash ]
        ])
    by_user none = by_login sys.login_name
    by_user (some name) = Keeps-pure name

module _ (sys : System) (path : Bytes) where
  Begun-Extends : Extends (Begun sys path)
  Begun-Extends = record {
    on_made = λ c s h. record { before = h.before; opened = h.opened; found = h.found };
    on_writer = λ w s h. record { before = h.before; opened = h.opened; found = h.found };
    on_named = λ name s h. record { before = h.before; opened = h.opened; found = h.found };
    on_resized = λ s h. record { before = h.before; opened = h.opened; found = h.found };
  }

  abbrev Succeeds : Outcome Bool → Session → Type 0
  Succeeds r t = r ≡ returned true → Begun sys path t

  fail_file-Gives : Gives (λ b. b ≡ false) fail_file
  fail_file-Gives =
      Gives-bind _ (λ name. Gives-bind _ (λ _. record { run = λ s b e. ground arith }))

  fail_file-Succeeds : (s : Session) → Succeeds (fail_file s).0 (fail_file s).1
  fail_file-Succeeds s e = cc (fail_file-Gives.run s true e)

  kept-Succeeds :
      {m : Action Bool}
      → Keeps (Begun sys path) m
      → (s : Session) → Begun sys path s
      → Succeeds (m s).0 (m s).1
  kept-Succeeds k s h e = k.run s h

  remember_identity-Succeeds :
      (before : List Call) (fd now : ℕ) (user : Bytes) (s : Session)
      → s.calls ≡ open_append path ∷ before
      → s.log_file ≡ fd
      → sys.opened before path ≡ some fd
      → Succeeds (remember_identity sys fd now user s).0 (remember_identity sys fd now user s).1
  unfolding remember_identity ◌>>=◌
  remember_identity-Succeeds before fd now user s made log opened =
      by_found (sys.fstat s.calls fd) (rw made refl)
    where
      by_found :
          (found : Option Stat)
          → sys.fstat (open_append path ∷ before) fd ≡ found
          → let m : Action Bool = elim found [
            | none ↦ fail_file
            | some st ↦
                modify (λ s. record s { log_inode = st.inode; log_dev = st.device })
                >> note_start sys now user
          ] in
            let t = record s { calls = fstat_fd fd ∷ s.calls } in Succeeds (m t).0 (m t).1
      by_found none e = fail_file-Succeeds _
      by_found (some st) e =
          kept-Succeeds (on_note_start sys (Extends-Closed Begun-Extends sys) now user)
            (record s { calls = fstat_fd fd ∷ s.calls; log_inode = st.inode; log_dev = st.device })
            (record { before = before; opened = rw log opened; found = rw log e })

  opened-Succeeds :
      (now : ℕ) (user : Bytes) (r : Option ℕ) (s : Session) (before : List Call)
      → s.calls ≡ open_append path ∷ before
      → sys.opened before path ≡ r
      → let m : Action Bool = elim r [
        | none ↦ fail_file
        | some n ↦ modify (λ s. record s { log_file = n }) >> remember_identity sys n now user
      ] in
        Succeeds (m s).0 (m s).1
  unfolding ◌>>=◌
  opened-Succeeds now user none s before made opened = fail_file-Succeeds s
  opened-Succeeds now user (some n) s before made opened =
      remember_identity-Succeeds before n now user (record s { log_file = n }) made refl opened

  abbrev Named : Session → Type 0
  Named t = choose_name sys (sys.time t.calls) t ≡ path

  open_log_file-Succeeds : (user : Bytes) → Ensures Named (open_log_file sys user) Succeeds
  unfolding open_log_file ◌>>=◌
  open_log_file-Succeeds user = record {
    run = λ s h.
        rw h
          (opened-Succeeds (sys.time s.calls) user (sys.opened s.calls path) _ s.calls refl refl);
  }

  destinations-Succeeds :
      (commands : Option Bytes) (user : Bytes)
      → Ensures Named (begin_destinations sys commands user true) Succeeds
  unfolding begin_destinations
  destinations-Succeeds commands user =
      Ensures-then Succeeds (λ r q never t h e. absurd (never true e)) (open_log_file-Succeeds user)
        by_opened
    where
      by_opened :
          (opened : Bool)
          → Ensures
              (Succeeds (returned opened))
              (if opened then begin_syslog sys commands user else pure false)
              Succeeds
      by_opened true = record {
        run = λ s h.
            kept-Succeeds (on_begin_syslog sys (Extends-Closed Begun-Extends sys) commands user) s
              (h refl);
      }
      by_opened false = record { run = λ s h e. cc }

  -- With a log file, and its name.
  abbrev Files : Session → Type 0
  Files t = (t.settings.logtofile ≡ true) × Named t

  beginlogging-Succeeds :
      (commands : Option Bytes) → Ensures Files (beginlogging sys commands) Succeeds
  unfolding beginlogging ◌>>=◌
  beginlogging-Succeeds commands =
      Ensures-then (λ r t. Files t) (λ r q never t h e. absurd (never true e))
        (record { run = (acting_user-kept sys).run })
        (λ user. record {
          run = λ s h. by_switches user s.settings.logtofile s.settings.logtosyslog h.0 s h.1;
        })
    where
      by_switches :
          (user : Bytes) (file syslog : Bool)
          → file ≡ true
          → (s : Session) → Named s
          → let m : Action Bool =
              if not file && not syslog
              then call (print_error (codes "you cannot switch off both file and syslog logging\n"))
                >> pure false
              else begin_destinations sys commands user file in
            Succeeds (m s).0 (m s).1
      by_switches user true syslog e s h = (destinations-Succeeds commands user).run s h
      by_switches user false syslog e s h = cc

-- A session that logs to a file begins only with a log file: where `beginlogging` returns true, the
-- descriptor it keeps is one that `open` gave for the name chosen for the session, and the inode and
-- the device it keeps are those that `fstat` gave for that descriptor right behind the opening.
pub beginlogging-Begun :
    (sys : System) (commands : Option Bytes) (s : Session)
    → s.settings.logtofile ≡ true
    → (beginlogging sys commands s).0 ≡ returned true
    → Begun sys (choose_name sys (sys.time s.calls) s) (beginlogging sys commands s).1
beginlogging-Begun sys commands s on done =
    (beginlogging-Succeeds sys (choose_name sys (sys.time s.calls) s) commands).run s (on, refl)
      done
