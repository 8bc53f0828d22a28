-- ===== src/Session/OptionsLaws.antt =====
-- What the options can change of the session.
use mathlib.Core.Path.{subst}
use rootsh.Base.{◌≡◌, refl, ◌∙◌, ap, Bool, true, false, not, ◌&&◌, Option, List, [], ◌∷◌}
use rootsh.Text.{Bytes}
use rootsh.Session.State.{Session}
use rootsh.Session.Options.{
  Choice, help, version, login, no_logfile, no_syslog, user, logfile, logdir, command, Parsed,
  parsed, asked_help, asked_version, choose, read_options,
}

-- Is `-x` among the options, before a command?
abbrev pub has_no_logfile : List Choice → Bool
has_no_logfile [] = false
has_no_logfile (no_logfile ∷ choices) = true
has_no_logfile (command args ∷ choices) = false
has_no_logfile (other ∷ choices) = has_no_logfile choices

-- Is `-y` among them?
abbrev pub has_no_syslog : List Choice → Bool
has_no_syslog [] = false
has_no_syslog (no_syslog ∷ choices) = true
has_no_syslog (command args ∷ choices) = false
has_no_syslog (other ∷ choices) = has_no_syslog choices

-- What is logged to, and whether the session stands alone, as far as the options leave it.
pub record Obeys (choices : List Choice) (s t : Session) : Type 0 where
  pub file : t.settings.logtofile ≡ (s.settings.logtofile && not (has_no_logfile choices))
  pub syslog : t.settings.logtosyslog ≡ (s.settings.logtosyslog && not (has_no_syslog choices))
  pub directory : t.settings.logdir ≡ s.settings.logdir
  pub alone : t.standalone ≡ s.standalone

both_off : (c : Bool) → false ≡ (c && false)
both_off true = refl
both_off false = refl

Obeys-no_logfile :
    (choices : List Choice) (s t : Session)
    → Obeys choices (choose no_logfile s) t
    → Obeys (no_logfile ∷ choices) s t
unfolding choose
Obeys-no_logfile choices s t h = record {
  file = h.file ∙ both_off s.settings.logtofile;
  syslog = h.syslog;
  directory = h.directory;
  alone = h.alone;
}

Obeys-no_syslog :
    (choices : List Choice) (s t : Session)
    → Obeys choices (choose no_syslog s) t
    → Obeys (no_syslog ∷ choices) s t
unfolding choose
Obeys-no_syslog choices s t h = record {
  file = h.file;
  syslog = h.syslog ∙ both_off s.settings.logtosyslog;
  directory = h.directory;
  alone = h.alone;
}

abbrev session_of : Session → Parsed → Session
session_of default (parsed commands s) = s
session_of default (asked_help s) = s
session_of default (asked_version s) = s

Obeys-end :
    (choices : List Choice) (commands after : Option Bytes) (s t : Session)
    → has_no_logfile choices ≡ false
    → has_no_syslog choices ≡ false
    → parsed commands s ≡ parsed after t
    → Obeys choices s t
Obeys-end choices commands after s t file_on syslog_on h =
    let same : s ≡ t = ap (session_of s) h in
    subst (λ u. Obeys choices s u) same
      (record {
        file = rw file_on (stays s.settings.logtofile);
        syslog = rw syslog_on (stays s.settings.logtosyslog);
        directory = refl;
        alone = refl;
      })
  where
    stays : (b : Bool) → b ≡ (b && true)
    stays true = refl
    stays false = refl

-- A choice of other variables.
Obeys-keep :
    (choices more : List Choice) (s u t : Session)
    → has_no_logfile more ≡ has_no_logfile choices
    → has_no_syslog more ≡ has_no_syslog choices
    → u.settings.logtofile ≡ s.settings.logtofile
    → u.settings.logtosyslog ≡ s.settings.logtosyslog
    → u.settings.logdir ≡ s.settings.logdir
    → u.standalone ≡ s.standalone
    → Obeys choices u t
    → Obeys more s t
Obeys-keep choices more s u t same_file same_syslog file syslog directory alone h = record {
  file = h.file ∙ rw (same_file, file) refl;
  syslog = h.syslog ∙ rw (same_syslog, syslog) refl;
  directory = h.directory ∙ directory;
  alone = h.alone ∙ alone;
}

-- The options never switch a destination on: the log file stays on exactly if it was on and `-x` is
-- not among them, and syslog exactly if it was on and `-y` is not among them, whether the session
-- stands alone or not. They leave the directory of the configuration.
pub read_options-Obeys :
    (choices : List Choice) (rest : List Bytes) (commands after : Option Bytes) (s t : Session)
    → read_options choices rest commands s ≡ parsed after t
    → Obeys choices s t
unfolding read_options choose
read_options-Obeys [] rest commands after s t h = Obeys-end [] _ after s t refl refl h
read_options-Obeys (help ∷ choices) rest commands after s t h = cc
read_options-Obeys (version ∷ choices) rest commands after s t h = cc
read_options-Obeys (command args ∷ choices) rest commands after s t h =
    Obeys-end (command args ∷ choices) _ after s t refl refl h
read_options-Obeys (login ∷ choices) rest commands after s t h =
    Obeys-keep choices _ s _ t refl refl refl refl refl refl
      (read_options-Obeys choices rest commands after (choose login s) t h)
read_options-Obeys (user name ∷ choices) rest commands after s t h =
    Obeys-keep choices _ s _ t refl refl refl refl refl refl
      (read_options-Obeys choices rest commands after (choose (user name) s) t h)
read_options-Obeys (logfile name ∷ choices) rest commands after s t h =
    Obeys-keep choices _ s _ t refl refl refl refl refl refl
      (read_options-Obeys choices rest commands after (choose (logfile name) s) t h)
read_options-Obeys (logdir dir ∷ choices) rest commands after s t h =
    Obeys-keep choices _ s _ t refl refl refl refl refl refl
      (read_options-Obeys choices rest commands after (choose (logdir dir) s) t h)
read_options-Obeys (no_syslog ∷ choices) rest commands after s t h =
    Obeys-no_syslog choices s t
      (read_options-Obeys choices rest commands after (choose no_syslog s) t h)
read_options-Obeys (no_logfile ∷ choices) rest commands after s t h =
    Obeys-no_logfile choices s t
      (read_options-Obeys choices rest commands after (choose no_logfile s) t h)
