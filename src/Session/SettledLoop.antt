-- ===== src/Session/SettledLoop.antt =====
-- A session leaves its identity as it is, and with enough fuel for the copying loop none runs out.
use rootsh.Base.{ℕ, ◌<◌, ◌≡◌, ◌≢◌, refl, ap, Bool, false, Option, arith}
use rootsh.Text.{Bytes}
use rootsh.Session.Calls.{System}
use rootsh.Session.State.{Session, unfinished, Action, gets, ◌>>=◌}
use rootsh.Session.Logging.Output.{forceopen, copy_loop, recover_into, recoverfile}
use rootsh.Session.Logging.CopyLaws.{EndsAfter, copy_loop-returned}
use rootsh.Session.Loop.{handle_all, setup_signal_handlers, log_session}
use rootsh.Session.Closed.End.{Ends}
use rootsh.Session.Closed.Recovery.{on_try_open, on_copy_loop, on_recover_into}
use rootsh.Session.Closed.Loop.{on_log_session}
use rootsh.Session.Settled.{
  Identity, identity, Settles, Settles-bind, Settles-perform, Settles-modify, Settles-Closed,
  Settles-Interacts, handle_all-identity,
}

-- Enough fuel for the copying loop: more than the reads that give bytes.
abbrev pub Copies : System → ℕ → Identity → Type 0
Copies sys fuel i = (n : ℕ) × EndsAfter sys i.log_file n × (n < fuel)

module _ (i : Identity) (sys : System) (fuel : ℕ) where
  -- Without a promise on the fuel.
  copy_loop-identity :
      (from to : ℕ) (s : Session) → identity s ≡ i → identity (copy_loop sys fuel from to s).1 ≡ i
  copy_loop-identity from to =
      (on_copy_loop sys (Settles-Closed i ⊥ sys) to (λ block result. Settles-perform i ⊥ _ _)
        (record { stays = λ s h. h; ends = λ q s h. absurd q }) fuel from
        (Settles-perform i ⊥ _ _)).stays

  module _ (Q : Type 0) (enough : Q → Copies sys fuel i) where
    copy_loop-ends :
        (to : ℕ) → Q → (s : Session) → (copy_loop sys fuel i.log_file to s).0 ≢ unfinished
    copy_loop-ends to q s e =
        let (n, ends, more) = enough q in
        let done = copy_loop-returned sys i.log_file to n fuel s ends (omega arith) (omega arith) in
        cc

    recover_into-Settles :
        (log : ℕ) (r : Option ℕ) → log ≡ i.log_file → Settles i Q Bool (recover_into sys fuel log r)
    recover_into-Settles log r e = on_recover_into sys (Settles-Closed i Q sys) fuel log r (λ to _.
        record { stays = copy_loop-identity log to; ends = λ q s h. rw e (copy_loop-ends to q s) })

    recoverfile-Settles :
        (log : ℕ) (name : Bytes)
        → log ≡ i.log_file
        → Settles i Q Bool (recoverfile sys fuel log name)
    unfolding recoverfile forceopen
    recoverfile-Settles log name e =
        Settles-bind i Q (on_try_open sys (Settles-Closed i Q sys) name 3)
          (λ r. recover_into-Settles log r e)

    recovery-Settles :
        {B : Type 0} (name : Bytes) {rest : ℕ → Bool → Action B}
        → ((log : ℕ) (done : Bool) → Settles i Q B (rest log done))
        → Settles i Q B
            (gets (λ s. s.log_file) >>= λ log. recoverfile sys fuel log name >>= rest log)
    unfolding ◌>>=◌
    recovery-Settles {B} name {rest} next = record {
      stays = λ s h. (whole s.log_file (ap (λ j. j.log_file) h)).stays s h;
      ends = λ q s h. (whole s.log_file (ap (λ j. j.log_file) h)).ends q s h;
    }
      where
        whole :
            (log : ℕ)
            → log ≡ i.log_file
            → Settles i Q B (recoverfile sys fuel log name >>= rest log)
        whole log e = Settles-bind i Q (recoverfile-Settles log name e) (next log)

    pub Settles-Ends : Ends sys fuel (Settles i Q)
    unfolding setup_signal_handlers
    Settles-Ends = record {
      on_recovered = recovery-Settles;
      on_handled =
          λ signals. Settles-modify i Q (handle_all signals) (handle_all-identity i Q signals);
      on_set_up = Settles-modify i Q setup_signal_handlers (λ s. refl);
      on_cleared =
          Settles-modify i Q (λ s. record s { sig_int = false; sig_quit = false; sig_chld = false })
            (λ s. refl);
    }

pub log_session-identity :
    (sys : System) (fuel turns : ℕ) (s : Session)
    → identity (log_session sys fuel turns s).1 ≡ identity s
log_session-identity sys fuel turns s =
    (on_log_session sys fuel (Settles-Closed (identity s) ⊥ sys)
        (Settles-Interacts (identity s) ⊥ sys)
        (Settles-Ends (identity s) sys fuel ⊥ (λ q. absurd q))
        (record { stays = λ t h. h; ends = λ q t h. absurd q }) turns).stays
      s refl
