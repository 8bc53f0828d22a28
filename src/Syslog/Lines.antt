-- ===== src/Syslog/Lines.antt =====
-- `write2syslog` sends the lines of the stream, however the output is cut into calls.
use mathlib.Core.List.{append_assoc, append-nil}
use Prim.Native.Nat.{bit_or}
use rootsh.Base.{
  ℕ, zero, suc, ◌≡◌, ◌<◌, ◌≤◌, refl, sym, ap, ◌∙◌, Bool, true, false, none, some, List, [], ◌∷◌,
  ◌++◌, ◌==◌, if◌then◌else◌, length, take, drop, length-drop, All, drop_while, arith, Bool-cases,
  Option-cases, inl, inr,
}
use rootsh.Text.{Bytes, codes, c_string, memchr, memchr-Found, memchr-none, padded}
use rootsh.Syslog.Strip.{stripesc}
use rootsh.Syslog.StripLaws.{stripesc-unchanged}
use rootsh.Syslog.Writer.{
  Writer, Options, Entry, send_line, Next, stop, search, after_cr, Scan, finished, follow, scan,
}
use rootsh.Syslog.Stream.{
  Stream, at_line_start, consume, IsCrLf, is_inside, count_after, entries_of, consume-inside,
  inside-IsCrLf, IsCrLf-behind, IsCrLf-append_left, consume-newline, consume-other, consume-return,
}

-- The variables of the writer once a line is sent.
abbrev pub sent_line : Options → Writer → Bytes → Writer
sent_line o w line = record w {
  rflag = true;
  linecnt = count_after o w.linecnt;
  vtstate = (stripesc w.vtstate (c_string line)).0;
}

unfoldable pub after_lines : Options → Writer → List Bytes → Writer
after_lines o w [] = w
after_lines o w (line ∷ lines) = after_lines o (sent_line o w line) lines

c_string_nul : (s : Bytes) → c_string (c_string s ++ 0 ∷ []) ≡ c_string s
unfolding c_string
c_string_nul [] = refl
c_string_nul (c ∷ s) = ground (arith, c_string_nul s)

send_line_lem :
    (o : Options) (w : Writer) (line : Bytes)
    → send_line o w line
      ≡ some (
        after_lines o w (line ∷ []),
        record {
          level = bit_or o.facility o.priority;
          text =
              if o.use_linecnt
              then padded 3 w.linecnt ++ (codes ": " ++ c_string line)
              else c_string line;
        },
      )
unfolding send_line after_lines
send_line_lem o w line =
    rw (stripesc-unchanged w.vtstate (c_string line), send_line) (rw c_string_nul (ground arith))

-- What a turn of the loop does with the bytes behind a CR.
abbrev Follows : Bytes → Next → Type 0
Follows behind (stop t) =
    ((consume (record { pending = []; after_cr = true }) behind).1 ≡ [])
    × (drop_while (λ c. c == b'\n') t
        ≡ (consume (record { pending = []; after_cr = true }) behind).0.pending)
Follows behind (search t) =
    (consume (record { pending = []; after_cr = true }) behind ≡ consume at_line_start t)
    × IsCrLf false t
    × (length t ≤ length behind)

after_cr-Follows : (behind : Bytes) → IsCrLf true behind → Follows behind (after_cr behind)
unfolding after_cr
after_cr-Follows [] d = unfold consume in (refl, refl)
after_cr-Follows (c ∷ []) d = elim (Bool-cases (c == b'\n')) [
  | inl lf ↦ let same : c ≡ b'\n' = ground arith in rw same (unfold consume in (refl, refl))
  | inr other ↦ rw other (consume-other c [] other, (rw other refl, d.1), omega arith)
]
after_cr-Follows (c ∷ e ∷ r) d = elim (Bool-cases (c == b'\n')) [
  | inl lf ↦
      let same : c ≡ b'\n' = ground arith in
      let d' : IsCrLf (c == b'\r') (e ∷ r) = d.1 in
      rw same (consume-newline (e ∷ r), rw same at d', omega arith)
  | inr other ↦ rw other (consume-other c (e ∷ r) other, (rw other refl, d.1), omega arith)
]

abbrev pub is_newline : ℕ → Bool
is_newline c = c == b'\n'

drop_while-inside : (t : Bytes) → All is_inside t → drop_while is_newline t ≡ t
drop_while-inside [] h = refl
drop_while-inside (c ∷ t) h = ground arith

-- The loop has sent `lines`, and `pending` is what will be kept.
abbrev pub Scanned : Options → Writer → List Entry → List Bytes → Bytes → Scan → Type 0
Scanned o w sent lines pending r =
    (rest : Bytes) × (r
      ≡ finished (after_lines o w lines) (sent ++ entries_of o w.linecnt lines) rest)
    × (drop_while is_newline rest ≡ pending)

abbrev behind_cr : Bytes → Stream × List Bytes
behind_cr behind = consume (record { pending = []; after_cr = true }) behind

abbrev pub Scans : ℕ → Options → Type 0
Scans fuel o =
    (w : Writer) (sent : List Entry) (t : Bytes)
    → length t < fuel
    → IsCrLf false t
    → Scanned o w sent (consume at_line_start t).1 (consume at_line_start t).0.pending
        (scan fuel o w sent t)

follow-Scanned :
    (fuel : ℕ) (o : Options) (w : Writer) (sent : List Entry) (line behind : Bytes) (next : Next)
    → Scans fuel o
    → length behind < fuel
    → Follows behind next
    → Scanned o w sent
        (line ∷ (behind_cr behind).1)
        (behind_cr behind).0.pending
        (follow (scan fuel o) sent (send_line o w line) next)
unfolding follow after_lines
follow-Scanned fuel o w sent line behind (stop t) again size f =
    (t, rw (send_line_lem o w line, f.0), f.1)
follow-Scanned fuel o w sent line behind (search t) again size f =
    rw (send_line_lem o w line, f.0)
      (let (rest, e, kept) = again (after_lines o w (line ∷ [])) _ t (omega (arith, f.2)) f.1 in
        (rest, e ∙ rw append_assoc, kept))

module _ (fuel : ℕ) (o : Options) (w : Writer) (sent : List Entry) (t : Bytes) where
  scan-none : memchr t b'\r' ≡ none → scan (suc fuel) o w sent t ≡ finished w sent t
  unfolding scan
  scan-none h = rw (h, scan)

  scan-some :
      (n : ℕ)
      → memchr t b'\r' ≡ some n
      → scan (suc fuel) o w sent t
        ≡ follow (scan fuel o) sent (send_line o w (take n t)) (after_cr (drop (suc n) t))
  unfolding scan
  scan-some n h = rw (h, scan)

scan-last :
    (fuel : ℕ) (o : Options) (w : Writer) (sent : List Entry) (t : Bytes)
    → All is_inside t
    → memchr t b'\r' ≡ none
    → Scanned o w sent
        (consume at_line_start t).1
        (consume at_line_start t).0.pending
        (scan (suc fuel) o w sent t)
unfolding after_lines
scan-last fuel o w sent t h no_cr =
    let read : consume at_line_start t ≡ (record { pending = t; after_cr = false }, []) =
      ap (consume at_line_start) (sym (append-nil t))
      ∙ consume-inside [] t [] h
      ∙ unfold consume in refl in
    simp (scan-none fuel o w sent t no_cr, read) (t, rw append-nil refl, drop_while-inside t h)

pub scan-Scanned : (fuel : ℕ) (o : Options) → Scans fuel o
scan-Scanned zero o w sent t size d = absurd (omega arith)
scan-Scanned (suc fuel) o w sent t size d = elim (Option-cases (memchr t b'\r')) [
  | inl no_cr ↦ scan-last fuel o w sent t (inside-IsCrLf t (memchr-none t b'\r' no_cr) d) no_cr
  | inr (n, at_n) ↦
      let f = memchr-Found t b'\r' at_n in
      let split_d = rw f.splits at d in
      let read = consume-return (take n t) (drop (suc n) t) (
        inside-IsCrLf (take n t) f.first
          (IsCrLf-append_left (take n t) (b'\r' ∷ drop (suc n) t) false split_d)) in
      let turn =
        follow-Scanned fuel o w sent (take n t) (drop (suc n) t) (after_cr (drop (suc n) t))
          (scan-Scanned fuel o) (omega (arith, length-drop (suc n) t, f.in_range))
          (after_cr-Follows (drop (suc n) t)
            (IsCrLf-behind (take n t) (drop (suc n) t) b'\r' false split_d)) in
      let whole = ap (consume at_line_start) f.splits ∙ read in
      simp (scan-some fuel o w sent t n at_n, whole) turn
]
