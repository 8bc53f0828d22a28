-- ===== src/Session/Modes.antt =====
-- `struct termios`, as far as `logSession` changes it: `true` is a flag that is set.
use rootsh.Base.{ℕ, Bool, false}

pub record Modes : Type 0 where
  pub vmin : ℕ
  pub vtime : ℕ
  pub opost : Bool
  pub icanon : Bool
  pub isig : Bool
  pub echo : Bool
  pub inlcr : Bool
  pub igncr : Bool
  pub icrnl : Bool
  pub iuclc : Bool
  pub ixon : Bool

-- `newTty`, from the modes of the calling terminal; IUCLC is defined.
unfoldable pub new_tty : Modes → Modes
new_tty modes = record modes {
  vmin = 1;
  vtime = 0;
  opost = false;
  icanon = false;
  isig = false;
  echo = false;
  inlcr = false;
  igncr = false;
  icrnl = false;
  iuclc = false;
  ixon = false;
}
