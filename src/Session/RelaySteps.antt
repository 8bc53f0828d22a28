-- ===== src/Session/RelaySteps.antt =====
-- The steps in which a block is read and written on.
use rootsh.Base.{
  ℕ, ◌≡◌, refl, ◌==◌, true, false, Option, none, some, List, [], ◌∷◌, ◌++◌, arith, ==_iff,
}
use rootsh.Text.{Bytes}
use rootsh.Session.Calls.{write_to, read_from, System}
use rootsh.Session.State.{Session}
use rootsh.Session.Relayed.{IsRelayed, nonempty, given}

module _ (sys : System) (pty : ℕ) (no_input : (pty == 0) ≡ false) (apart : (pty == 1) ≡ false) where
  -- A block of the user is read and written to the pty.
  pub passed_on :
      (s : Session) (buf : Bytes)
      → sys.read s.calls 0 ≡ some buf
      → IsRelayed sys pty [] s
      → IsRelayed sys pty []
          (record s { calls = write_to s.master_pty buf ∷ read_from 0 ∷ s.calls })
  passed_on s buf e h =
      let other : (0 == pty) ≡ false = ground arith in
      let same : (pty == pty) ≡ true = (==_iff pty pty).1 refl in
      record {
        pty_is = h.pty_is;
        log_apart = h.log_apart;
        log_no_input = h.log_no_input;
        output = rw (h.pty_is, apart, other) h.output;
        input = rw (h.pty_is, same, e, h.input) refl;
      }

  pub no_more_input :
      (s : Session)
      → sys.read s.calls 0 ≡ none
      → IsRelayed sys pty [] s
      → IsRelayed sys pty [] (record s { calls = read_from 0 ∷ s.calls })
  no_more_input s e h =
      let other : (0 == pty) ≡ false = ground arith in
      record {
        pty_is = h.pty_is;
        log_apart = h.log_apart;
        log_no_input = h.log_no_input;
        output = rw other h.output;
        input = rw e h.input;
      }

  -- What was read from the pty is left to be shown.
  pub read_output :
      (s : Session)
      → IsRelayed sys pty [] s
      → IsRelayed sys pty
          (nonempty (given (sys.read s.calls s.master_pty)))
          (record s { calls = read_from s.master_pty ∷ s.calls })
  read_output s h =
      let same : (pty == pty) ≡ true = (==_iff pty pty).1 refl in
      record {
        pty_is = h.pty_is;
        log_apart = h.log_apart;
        log_no_input = h.log_no_input;
        output = rw (h.pty_is, same) (by_given (sys.read s.calls pty) _ h.output);
        input = rw (h.pty_is, no_input) h.input;
      }
    where
      by_given :
          (r : Option Bytes) (blocks : List Bytes) {shown : List Bytes}
          → nonempty blocks ≡ shown
          → nonempty (given r ++ blocks) ≡ nonempty (given r) ++ shown
      by_given none blocks e = e
      by_given (some []) blocks e = e
      by_given (some (c ∷ cs)) blocks e = rw e refl

  pub shown_on :
      (s : Session) (block : Bytes)
      → IsRelayed sys pty (block ∷ []) s
      → IsRelayed sys pty [] (record s { calls = write_to 1 block ∷ s.calls })
  shown_on s block h =
      let other : (1 == pty) ≡ false = ground arith in
      record {
        pty_is = h.pty_is;
        log_apart = h.log_apart;
        log_no_input = h.log_no_input;
        output = h.output;
        input = rw other h.input;
      }
