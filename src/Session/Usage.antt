-- ===== src/Session/Usage.antt =====
-- `version` and `usage`: what they print, and that the program ends there. SUCMD is defined.
use rootsh.Base.{Bool, true, false, Option, none, some, ◌++◌}
use rootsh.Text.{Bytes, codes}
use rootsh.Session.Calls.{print_output}
use rootsh.Session.State.{Action, exit, gets, call, when, unit, ◌>>=◌, ◌>>◌}
use rootsh.Session.Setup.{default_shell}

-- What the build sets: LOGDIR, DEFAULTSHELL, CONFIGFILE, VERSION, the names of the facility and the
-- priority, and SUCMD.
pub record Build : Type 0 where
  pub logdir : Bytes
  pub default_shell : Bytes
  pub config_file : Bytes
  pub version : Bytes
  pub facility_name : Bytes
  pub priority_name : Bytes
  pub sucmd : Bytes

abbrev pub print : Bytes → Action (Unit {0})
print text = call (print_output text)

abbrev pub print_switch : Bytes → Bool → Action (Unit {0})
print_switch what true = print (what ++ codes " is on\n")
print_switch what false = print (what ++ codes " is off\n")

unfoldable pub version_file : Action (Unit {0})
version_file = do
  print (codes "Logging to file.\n")
  logdir ← gets (λ s. s.settings.logdir)
  print (codes "Logfiles go to directory '" ++ (logdir ++ codes "'\n"))

unfoldable pub version_syslog : Build → Action (Unit {0})
version_syslog build = do
  print (codes "Logging to syslog.\n")
  print (
      codes "syslog messages go to facility.priority "
      ++ (build.facility_name ++ (codes "." ++ (build.priority_name ++ codes "\n"))))
  numbering ← gets (λ s. s.settings.syslog_log_line_count)
  print_switch (codes "syslog line numbering") numbering
  user_logged ← gets (λ s. s.settings.syslog_log_username)
  print_switch (codes "syslog logging of username") user_logged

unfoldable pub version_shell : Option Bytes → Action (Unit {0})
version_shell none = unit
version_shell (some shell) = gets (λ s. s.prog_name) >>= λ name. print (
    name
    ++ (codes " can be used as login shell. "
        ++ (shell ++ codes " will interpret your commands\n")))

unfoldable pub version : {A : Type 0} → Build → Action A
unfolding version_file version_syslog version_shell default_shell
version build = do
  shell ← gets default_shell
  print (codes "Config file is " ++ (build.config_file ++ codes "\n"))
  name ← gets (λ s. s.prog_name)
  print (name ++ (codes " version " ++ (build.version ++ codes "\n")))
  logtofile ← gets (λ s. s.settings.logtofile)
  when logtofile version_file
  logtosyslog ← gets (λ s. s.settings.logtosyslog)
  when logtosyslog (version_syslog build)
  version_shell shell
  exit 0

unfoldable pub usage : {A : Type 0} → Action A
usage = do
  name ← gets (λ s. s.prog_name)
  print (
      codes "Usage: "
      ++ (name
          ++ (codes " [OPTION [ARG]] ...\n -?, --help            show this help statement\n"
              ++ (codes " -i, --login           start a (initial) login shell\n"
                  ++ (codes " -u, --user=username   run shell as a different user\n"
                      ++ (codes " -f, --logfile=file    name of your logfile (standalone only)\n"
                          ++ (codes
                                " -d, --logdir=DIR      directory for your logfile (standalone only)\n"
                              ++ (codes
                                    " -x, --no-logfile      switch off logging to a file (standalone only)\n"
                                  ++ (codes
                                        " -y, --no-syslog       switch off logging to syslog (standalone only)\n"
                                      ++ codes
                                          " -V, --version         show version statement\n")))))))))
  exit 0
