-- ===== src/Syslog/Calls.antt =====
-- The calls of `write2syslog` for a session refine the stream of the terminal's output.
use mathlib.Core.List.{flatten}
use rootsh.Base.{
  ℕ, ◌+◌, ◌≡◌, ◌≢◌, ◌⊎◌, refl, sym, ◌∙◌, Bool, true, false, some, List, [], ◌∷◌, ◌++◌, ◌==◌, length,
  arith, Bool-cases, inl, inr,
}
use rootsh.Text.{Bytes}
use rootsh.Syslog.Writer.{
  Writer, Options, Entry, initial, Written, written, failed, keep, keep_rest, joined, skip_newline,
  write2syslog,
}
use rootsh.Syslog.Stream.{
  Stream, at_line_start, consume, IsCrLf, count_after, entries_of, count_of, IsStream,
  consume-append, consume-inside, IsCrLf-inside, IsCrLf-append_left, IsCrLf-append_right,
  consume-IsStream, consume-newline, consume-other, consume-at_line_start,
}
use rootsh.Syslog.Lines.{sent_line, after_lines, scan-Scanned}

-- The variables stand for a stream: what is not ended yet is kept, and a CR is remembered.
pub record Matches (w : Writer) (s : Stream) : Type 0 where
  pub kept : w.rptr ≡ keep s.pending
  pub remembered : s.after_cr ≡ true → w.rflag ≡ true
  pub stream : IsStream s

-- The bytes that a call searches, which start where a line starts.
record Searched (s : Stream) (chunk buffer : Bytes) : Type 0 where
  same : consume s chunk ≡ consume at_line_start buffer
  crlf : IsCrLf false buffer

joined-keep : (p t : Bytes) → joined (keep p) t ≡ p ++ t
unfolding joined keep
joined-keep [] t = refl
joined-keep (c ∷ p) t = refl

abbrev stream : Bytes → Bool → Stream
stream p cr = record { pending = p; after_cr = cr }

-- Behind a CR nothing is kept, and a LF in front is dropped.
skip_newline-behind_cr :
    (c : ℕ) (cs : Bytes)
    → IsCrLf true (c ∷ cs)
    → Searched (stream [] true) (c ∷ cs) (skip_newline true (c ∷ cs))
unfolding skip_newline
skip_newline-behind_cr c cs d = elim (Bool-cases (c == b'\n')) [
  | inl lf ↦
      let same : c ≡ b'\n' = ground arith in
      let d' : IsCrLf (c == b'\r') cs = d.1 in
      rw same (record { same = consume-newline cs; crlf = rw same at d' })
  | inr other ↦ rw other (record { same = consume-other c cs other; crlf = (rw other refl, d.1) })
]

-- Elsewhere the discipline rules out a LF in front.
skip_newline-inside :
    (rflag : Bool) (c : ℕ) (cs : Bytes)
    → IsCrLf false (c ∷ cs)
    → skip_newline rflag (c ∷ cs) ≡ c ∷ cs
unfolding skip_newline
skip_newline-inside rflag c cs d = ground arith

skip_newline-Searched :
    (rflag : Bool) (p : Bytes) (cr : Bool) (c : ℕ) (cs : Bytes)
    → (cr ≡ true → rflag ≡ true)
    → IsStream (stream p cr)
    → IsCrLf cr (c ∷ cs)
    → Searched (stream p cr) (c ∷ cs) (joined (keep p) (skip_newline rflag (c ∷ cs)))
skip_newline-Searched rflag p true c cs r v d =
    rw (joined-keep, v.empty refl, r refl) (skip_newline-behind_cr c cs d)
skip_newline-Searched rflag p false c cs r v d =
    rw (joined-keep, skip_newline-inside rflag c cs d)
      (record {
        same = sym (consume-inside [] p (c ∷ cs) v.inside);
        crlf = IsCrLf-inside p (c ∷ cs) v.inside d;
      })

after_lines-rflag :
    (o : Options) (w : Writer) (lines : List Bytes)
    → (w.rflag ≡ true) ⊎ (lines ≢ [])
    → (after_lines o w lines).rflag ≡ true
unfolding after_lines
after_lines-rflag o w [] h = ground arith
after_lines-rflag o w (line ∷ lines) h = after_lines-rflag o (sent_line o w line) lines (inl refl)

after_lines-linecnt :
    (o : Options) (w : Writer) (lines : List Bytes)
    → (after_lines o w lines).linecnt ≡ count_of o w.linecnt lines
unfolding after_lines
after_lines-linecnt o w [] = refl
after_lines-linecnt o w (line ∷ lines) = after_lines-linecnt o (sent_line o w line) lines

-- What a call has done that began at `w`, with the stream at `s`.
abbrev pub Logs : Options → Writer → Stream → Bytes → Written → Type 0
Logs o w s chunk r =
    (w' : Writer) × (r ≡ written w' (entries_of o w.linecnt (consume s chunk).1))
    × Matches w' (consume s chunk).0
    × (w'.linecnt ≡ count_of o w.linecnt (consume s chunk).1)

write2syslog-Logs :
    (o : Options) (w : Writer) (s : Stream) (chunk : Bytes)
    → Matches w s
    → IsCrLf s.after_cr chunk
    → Logs o w s chunk (write2syslog o w (some chunk))
unfolding write2syslog keep_rest
write2syslog-Logs o w s [] m d = unfold consume in (w, refl, m, refl)
write2syslog-Logs o w s (c ∷ cs) m d =
    let buffer = joined w.rptr (skip_newline w.rflag (c ∷ cs)) in
    let found : Searched s (c ∷ cs) buffer =
      rw m.kept (skip_newline-Searched w.rflag s.pending s.after_cr c cs m.remembered m.stream d) in
    let (rest, sent, kept) =
      scan-Scanned (length buffer + 1) o (record w { rflag = false }) [] buffer (omega arith)
        found.crlf in
    let lines = (consume at_line_start buffer).1 in
    let w' = record (after_lines o (record w { rflag = false }) lines) {
      rptr = keep (consume at_line_start buffer).0.pending;
    } in
    rw found.same (
      w',
      rw (sent, kept) refl,
      record {
        kept = refl;
        remembered = λ e.
            after_lines-rflag o (record w { rflag = false }) lines
              (inr (consume-at_line_start buffer e));
        stream =
            consume-IsStream at_line_start buffer (record { inside = tt; empty = λ _. refl })
              found.crlf;
      },
      after_lines-linecnt o (record w { rflag = false }) lines,
    )

-- A call and those behind it.
unfoldable pub and_then : Written → (Writer → Written) → Written
and_then failed later = failed
and_then (written w sent) later = elim (later w) [
  | written w' more ↦ written w' (sent ++ more)
  | failed ↦ failed
]

-- The calls for the chunks of a session's output, in order.
unfoldable pub write_calls : Options → Writer → List Bytes → Written
unfolding and_then
write_calls o w [] = written w []
write_calls o w (chunk ∷ chunks) =
    and_then (write2syslog o w (some chunk)) (λ w'. write_calls o w' chunks)

entries_of-append :
    (o : Options) (n : ℕ) (a b : List Bytes)
    → entries_of o n (a ++ b) ≡ entries_of o n a ++ entries_of o (count_of o n a) b
entries_of-append o n [] b = refl
entries_of-append o n (line ∷ a) b = rw (entries_of-append o (count_after o n) a b)

pub and_then-written :
    {r : Written} (later : Writer → Written) {w w' : Writer} {sent more : List Entry}
    → r ≡ written w sent
    → later w ≡ written w' more
    → and_then r later ≡ written w' (sent ++ more)
unfolding and_then
and_then-written later e f = rw e (rw (f, and_then))

write_calls-Matches :
    (o : Options) (w : Writer) (s : Stream) (chunks : List Bytes)
    → Matches w s
    → IsCrLf s.after_cr (flatten chunks)
    → (w' : Writer) × (write_calls o w chunks
        ≡ written w' (entries_of o w.linecnt (consume s (flatten chunks)).1))
      × Matches w' (consume s (flatten chunks)).0
unfolding write_calls flatten
write_calls-Matches o w s [] m d = unfold consume in (w, refl, m)
write_calls-Matches o w s (chunk ∷ chunks) m d =
    let (w₁, first, m₁, n₁) =
      write2syslog-Logs o w s chunk m (IsCrLf-append_left chunk (flatten chunks) s.after_cr d) in
    let (w₂, later, m₂) =
      write_calls-Matches o w₁ (consume s chunk).0 chunks m₁
        (IsCrLf-append_right s chunk (flatten chunks) d) in
    rw (consume-append s chunk (flatten chunks)) (
      w₂,
      and_then-written (λ w'. write_calls o w' chunks) first (rw n₁ at later)
          ∙ rw entries_of-append,
      m₂,
    )

-- A session's output in which each LF stands behind a CR is logged as the lines that its CRs end,
-- numbered in order from 0 to 100 and round again if lines are numbered, each up to its first NUL,
-- however the output is cut into calls. The call never fails.
pub write_calls-stream :
    (o : Options) (chunks : List Bytes)
    → IsCrLf false (flatten chunks)
    → (w' : Writer) × (write_calls o initial chunks
        ≡ written w' (entries_of o 0 (consume at_line_start (flatten chunks)).1))
      × (w'.rptr ≡ keep (consume at_line_start (flatten chunks)).0.pending)
write_calls-stream o chunks d =
    let (w', e, m) =
      write_calls-Matches o initial at_line_start chunks
        (record {
          kept = unfold keep in refl;
          remembered = λ e. cc;
          stream = record { inside = tt; empty = λ _. refl };
        })
        d in
    (w', e, m.kept)
