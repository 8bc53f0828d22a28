-- ===== src/Session/Launch.antt =====
-- The start of `main`, and its options, keep a predicate that no text on stderr or stdout takes away,
-- and no change but that of the log file, the pty, the writer or the calls; and no fuel runs out in them.
use rootsh.Base.{◌≡◌, ◌≢◌, refl, Bool, true, false, Option, none, some, List, [], ◌∷◌, ltb, length}
use rootsh.Text.{Bytes, codes}
use rootsh.Config.File.{Settings, Message, ReadResult}
use rootsh.Session.Calls.{print_error, print_output}
use rootsh.Session.State.{Session, unfinished, Action, modify, call, ◌>>=◌, ◌>>◌}
use rootsh.Session.Rules.{Keeps}
use rootsh.Session.Completes.{
  Completes, completes, Completes-bind, Completes-gets, Completes-pure, Completes-when,
  Completes-if,
}
use rootsh.Session.Usage.{
  Build, print, print_switch, version_file, version_syslog, version_shell, version, usage,
}
use rootsh.Session.Options.{
  Choice, help, version as shows_version, login, no_logfile, no_syslog, user, logfile, logdir,
  command, Parsed, parsed, asked_help, asked_version, choose, read_options,
}
use rootsh.Session.StartUp.{
  Machine, fail, check_compiled, print_messages, after_config, start_up, after_options,
  parse_options,
}

pub record Launches (P : Session → Type 0) : Type 0 where
  pub on_message :
      (text : Bytes) (s : Session) → P s → P (record s { calls = print_error text ∷ s.calls })
  pub on_output :
      (text : Bytes) (s : Session) → P s → P (record s { calls = print_output text ∷ s.calls })
  pub on_changed :
      (f : Session → Session)
      → ((s : Session) → (f s).log_file ≡ s.log_file)
      → ((s : Session) → (f s).master_pty ≡ s.master_pty)
      → ((s : Session) → (f s).writer ≡ s.writer)
      → ((s : Session) → (f s).calls ≡ s.calls)
      → Keeps P (modify f)

module _ {P : Session → Type 0} (p : Launches P) where
  changed-Completes :
      (f : Session → Session)
      → ((s : Session) → (f s).log_file ≡ s.log_file)
      → ((s : Session) → (f s).master_pty ≡ s.master_pty)
      → ((s : Session) → (f s).writer ≡ s.writer)
      → ((s : Session) → (f s).calls ≡ s.calls)
      → Completes P (modify f)
  changed-Completes f log pty writer calls =
      completes _ (λ s h. ((p.on_changed f log pty writer calls).run s h, λ e. cc))

  settings-Completes :
      (f : Settings → Settings) → Completes P (modify (λ s. record s { settings = f s.settings }))
  settings-Completes f =
      changed-Completes (λ s. record s { settings = f s.settings }) (λ _. refl) (λ _. refl)
        (λ _. refl) (λ _. refl)

  message-Completes : (text : Bytes) → Completes P (call (print_error text))
  message-Completes text = completes _ (λ s h. (p.on_message text s h, λ e. cc))

  output-Completes : (text : Bytes) → Completes P (print text)
  output-Completes text = completes _ (λ s h. (p.on_output text s h, λ e. cc))

  error-Completes : (text : Bytes) → Completes P (call (print_error text) >> fail)
  error-Completes text =
      Completes-bind (message-Completes text) (λ _. completes _ (λ s h. (h, λ e. cc)))

  check_compiled-Completes : (what value : Bytes) → Completes P (check_compiled what value)
  unfolding check_compiled
  check_compiled-Completes what value = Completes-when (ltb _ (length value)) (error-Completes _)

  print_messages-Completes : (messages : List Message) → Completes P (print_messages messages)
  unfolding print_messages
  print_messages-Completes [] = Completes-pure tt
  print_messages-Completes (m ∷ messages) =
      Completes-bind (message-Completes _) (λ _. print_messages-Completes messages)

  after_config-Completes : (r : ReadResult) → Completes P (after_config r)
  unfolding after_config
  after_config-Completes ReadResult.crashed = completes _ (λ s h. (h, λ e. cc))
  after_config-Completes (ReadResult.returned done settings messages) =
      Completes-bind (print_messages-Completes messages) (λ _.
        Completes-bind (settings-Completes (λ _. settings))
          (λ _. Completes-if done (Completes-pure tt) (error-Completes _)))

  print-Completes :
      {A : Type 0} (text : Bytes) (next : Action A)
      → Completes P next
      → Completes P (print text >> next)
  print-Completes text next k = Completes-bind (output-Completes text) (λ _. k)

  usage-Completes : {A : Type 0} → Completes P (usage {A = A})
  unfolding usage
  usage-Completes =
      Completes-bind (Completes-gets _)
        (λ name. print-Completes _ _ (completes _ (λ s h. (h, λ e. cc))))

  print_switch-Completes : (what : Bytes) (b : Bool) → Completes P (print_switch what b)
  print_switch-Completes what true = output-Completes _
  print_switch-Completes what false = output-Completes _

  version_file-Completes : Completes P version_file
  unfolding version_file
  version_file-Completes =
      print-Completes _ _ (Completes-bind (Completes-gets _) (λ logdir. output-Completes _))

  version_syslog-Completes : (build : Build) → Completes P (version_syslog build)
  unfolding version_syslog
  version_syslog-Completes build = print-Completes _ _ (
      print-Completes _ _ (
        Completes-bind (Completes-gets _) (λ numbering.
          Completes-bind (print_switch-Completes (codes "syslog line numbering") numbering) (λ _.
            Completes-bind (Completes-gets _) (λ user_logged.
              print_switch-Completes (codes "syslog logging of username") user_logged)))))

  version_shell-Completes : (shell : Option Bytes) → Completes P (version_shell shell)
  unfolding version_shell
  version_shell-Completes none = Completes-pure tt
  version_shell-Completes (some shell) =
      Completes-bind (Completes-gets _) (λ name. output-Completes _)

  pub version-Completes : {A : Type 0} (build : Build) → Completes P (version {A = A} build)
  unfolding version
  version-Completes build = Completes-bind (Completes-gets _) (λ shell. print-Completes _ _ (
      Completes-bind (Completes-gets _) (λ name. print-Completes _ _ (
        Completes-bind (Completes-gets _) (λ file.
          Completes-bind (Completes-when file version_file-Completes) (λ _.
            Completes-bind (Completes-gets _) (λ syslog.
              Completes-bind (Completes-when syslog (version_syslog-Completes build)) (λ _.
                Completes-bind (version_shell-Completes shell)
                  (λ _. completes _ (λ s h. (h, λ e. cc)))))))))))

  pub start_up-Completes : (build : Build) (m : Machine) → Completes P (start_up build m)
  unfolding start_up
  start_up-Completes build m = Completes-bind (check_compiled-Completes (codes "logdir") _) (λ _.
      Completes-bind (settings-Completes (λ t. record t { logdir = build.logdir })) (λ _.
        Completes-bind (check_compiled-Completes (codes "default shell") _) (λ _.
          Completes-bind (settings-Completes (λ t. record t { defaultshell = build.default_shell }))
            (λ _. Completes-bind (Completes-gets _) (λ result.
              Completes-bind (after_config-Completes result)
                (λ _. changed-Completes _ (λ _. refl) (λ _. refl) (λ _. refl) (λ _. refl)))))))

  -- The variables with which the loop over the options ends.
  abbrev pub EndsIn : Parsed → Type 0
  EndsIn (parsed commands t) = P t
  EndsIn (asked_help t) = P t
  EndsIn (asked_version t) = P t

  choose-kept : (c : Choice) (s : Session) → P s → P (choose c s)
  unfolding choose
  choose-kept login =
      (p.on_changed (λ s. choose login s) (λ _. refl) (λ _. refl) (λ _. refl) (λ _. refl)).run
  choose-kept (user name) =
      (p.on_changed (λ s. choose (user name) s) (λ _. refl) (λ _. refl) (λ _. refl) (λ _. refl)).run
  choose-kept (logfile name) =
      (p.on_changed (λ s. choose (logfile name) s) (λ _. refl) (λ _. refl) (λ _. refl)
        (λ _. refl)).run
  choose-kept (logdir dir) =
      (p.on_changed (λ s. choose (logdir dir) s) (λ _. refl) (λ _. refl) (λ _. refl)
        (λ _. refl)).run
  choose-kept no_logfile = (settings-Completes (λ t. record t { logtofile = false })).kept.run
  choose-kept no_syslog = (settings-Completes (λ t. record t { logtosyslog = false })).kept.run
  choose-kept help = λ s h. h
  choose-kept shows_version = λ s h. h
  choose-kept (command args) = λ s h. h

  pub read_options-kept :
      (choices : List Choice) (rest : List Bytes) (commands : Option Bytes) (s : Session)
      → P s
      → EndsIn (read_options choices rest commands s)
  unfolding read_options
  read_options-kept [] rest commands s h = h
  read_options-kept (help ∷ choices) rest commands s h = h
  read_options-kept (shows_version ∷ choices) rest commands s h = h
  read_options-kept (command args ∷ choices) rest commands s h = h
  read_options-kept (login ∷ choices) rest commands s h =
      read_options-kept choices rest commands _ (choose-kept login s h)
  read_options-kept (user name ∷ choices) rest commands s h =
      read_options-kept choices rest commands _ (choose-kept (user name) s h)
  read_options-kept (logfile name ∷ choices) rest commands s h =
      read_options-kept choices rest commands _ (choose-kept (logfile name) s h)
  read_options-kept (logdir dir ∷ choices) rest commands s h =
      read_options-kept choices rest commands _ (choose-kept (logdir dir) s h)
  read_options-kept (no_logfile ∷ choices) rest commands s h =
      read_options-kept choices rest commands _ (choose-kept no_logfile s h)
  read_options-kept (no_syslog ∷ choices) rest commands s h =
      read_options-kept choices rest commands _ (choose-kept no_syslog s h)

  after_options-Completes :
      (build : Build) (r : Parsed) (s : Session)
      → EndsIn r
      → P (after_options build r s).1 × ((after_options build r s).0 ≢ unfinished)
  unfolding after_options ◌>>=◌
  after_options-Completes build (parsed commands t) s h = (h, λ e. cc)
  after_options-Completes build (asked_help t) s h =
      let shown = usage-Completes {A = Option Bytes} in (shown.kept.run t h, shown.ends t h)
  after_options-Completes build (asked_version t) s h =
      let shown = version-Completes {A = Option Bytes} build in (shown.kept.run t h, shown.ends t h)

  pub parse_options-Completes : (build : Build) (m : Machine) → Completes P (parse_options build m)
  unfolding parse_options ◌>>=◌
  parse_options-Completes build m = completes _ (λ s h.
      after_options-Completes build (read_options m.choices m.rest none s) s
        (read_options-kept m.choices m.rest none s h))
