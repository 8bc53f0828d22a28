-- ===== src/Syslog/Appended.antt =====
-- A call of `write2syslog` behind others.
use rootsh.Base.{◌≡◌, refl, some, List, [], ◌∷◌, ◌++◌, arith}
use mathlib.Core.List.{append_assoc, append-nil}
use rootsh.Text.{Bytes}
use rootsh.Syslog.Writer.{Writer, Options, Entry, Written, written, failed, write2syslog}
use rootsh.Syslog.Calls.{and_then, and_then-written, write_calls}

and_then-split :
    (r : Written) (later : Writer → Written) {w : Writer} {es : List Entry}
    → and_then r later ≡ written w es
    → (w₁ : Writer) × (sent : List Entry) × (more : List Entry) × (r ≡ written w₁ sent)
      × (later w₁ ≡ written w more)
      × (es ≡ sent ++ more)
unfolding and_then
and_then-split failed later h = cc
and_then-split (written w₁ sent) later {w} {es} h = by_later (later w₁) refl h
  where
    by_later :
        (q : Written)
        → later w₁ ≡ q
        → elim q [ written w' more ↦ written w' (sent ++ more) | failed ↦ failed ] ≡ written w es
        → (w₂ : Writer) × (first : List Entry) × (more : List Entry) × (written w₁ sent
            ≡ written w₂ first)
          × (later w₂ ≡ written w more)
          × (es ≡ first ++ more)
    by_later failed e k = cc
    by_later (written w' more) e k =
        let same : w' ≡ w = ground arith in
        let whole : es ≡ sent ++ more = ground arith in (w₁, sent, more, refl, rw (← same) e, whole)

-- One more call.
pub write_calls-snoc :
    (o : Options) (w : Writer) (texts : List Bytes) (text : Bytes) {w₁ w₂ : Writer}
    {sent more : List Entry}
    → write_calls o w texts ≡ written w₁ sent
    → write2syslog o w₁ (some text) ≡ written w₂ more
    → write_calls o w (texts ++ text ∷ []) ≡ written w₂ (sent ++ more)
unfolding write_calls
write_calls-snoc o w [] text {w₁} {w₂} {sent} {more} e f =
    let same : w₁ ≡ w = ground arith in
    let none_sent : sent ≡ [] = ground arith in
    rw none_sent (rw append-nil at (and_then-written (λ w'. written w' []) (rw same at f) refl))
write_calls-snoc o w (t ∷ texts) text {w₁} {w₂} {sent} {more} e f =
    let (w', first, rest, r, later, whole) =
      and_then-split (write2syslog o w (some t)) (λ w'. write_calls o w' texts) e in
    rw (whole, append_assoc)
      (and_then-written (λ w'. write_calls o w' (texts ++ text ∷ [])) r
        (write_calls-snoc o w' texts text later f))
