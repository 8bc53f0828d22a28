-- ===== src/Session.antt =====
-- rootsh.c: the session around the shell, its logging and its setup.
pub mod Modes
pub mod Calls
pub mod State
pub mod Logging
pub mod Loop
pub mod Rules
pub mod Completes
pub mod Elsewhere
pub mod Closed
pub mod Blocks
pub mod Shown
pub mod Sent
pub mod ShownClosed
pub mod ShownLoop
pub mod Extends
pub mod StartsElsewhere
pub mod WritesElsewhere
pub mod SentLoop
pub mod Relayed
pub mod RelaySteps
pub mod Relays
pub mod RelayLoop
pub mod Ending
pub mod Settled
pub mod SettledLoop
pub mod Liveness
pub mod Proceeds
pub mod FinishLaws
pub mod Environment
pub mod Exec
pub mod Options
pub mod Usage
pub mod Pty
pub mod StartUp
pub mod Main
pub mod Prepares
pub mod Launch
pub mod Runs
pub mod Silent
pub mod MainShown
pub mod SentRuns
pub mod MainSent
pub mod Comes
pub mod MainEnds
pub mod Unlogged
pub mod MainRefuses
pub mod EnvironmentLaws
pub mod OptionsLaws
pub mod ExecLaws
pub mod SetupLaws
pub mod Sudo
pub mod Setup
mod Tests
mod LoopTests
mod SentTests
mod RelayTests
mod SetupTests
mod MainTests
