-- ===== src/Syslog/Stream.antt =====
-- What the log of a terminal session should be, byte by byte: a line ends at each CR, and a LF
-- behind a CR belongs to it. The terminal's output has no other LF, since the line discipline of the
-- pty writes CR LF for each.
use mathlib.Core.List.{append_assoc, append-nil}
use Prim.Native.Nat.{bit_or}
use rootsh.Base.{
  ℕ, ◌+◌, ◌≡◌, ◌≢◌, refl, ◌∙◌, Bool, true, false, not, ◌&&◌, ◌||◌, List, [], ◌∷◌, ◌++◌, ◌==◌,
  if◌then◌else◌, All, All-append, arith, Bool-cases, inl, inr,
}
use rootsh.Text.{Bytes, codes, c_string, is_other, padded}
use rootsh.Syslog.Writer.{Options, Entry}

-- The bytes of the line that is not ended yet, and whether the last byte was a CR.
pub record Stream : Type 0 where
  pub pending : Bytes
  pub after_cr : Bool

abbrev pub at_line_start : Stream
at_line_start = record { pending = []; after_cr = false }

-- The stream behind some more bytes, and the lines that they end.
unfoldable pub consume : Stream → Bytes → Stream × List Bytes
consume s [] = (s, [])
consume s (c ∷ cs) =
    let ended = consume (record { pending = []; after_cr = true }) cs in
    let skipped = consume (record { pending = s.pending; after_cr = false }) cs in
    let taken = consume (record { pending = s.pending ++ c ∷ []; after_cr = false }) cs in
    if c == b'\r'
    then (ended.0, s.pending ∷ ended.1)
    else if c == b'\n' && s.after_cr
    then skipped
    else taken

-- Every LF stands behind a CR; the flag says that a CR stands in front.
abbrev pub IsCrLf : Bool → Bytes → Type 0
IsCrLf cr [] = Unit
IsCrLf cr (c ∷ cs) = ((not (c == b'\n') || cr) ≡ true) × IsCrLf (c == b'\r') cs

-- No CR and no LF.
abbrev pub is_inside : ℕ → Bool
is_inside c = not (c == b'\r') && not (c == b'\n')

-- The number of the next line.
abbrev pub count_after : Options → ℕ → ℕ
count_after o n = if o.use_linecnt then (if n + 1 == 101 then 0 else n + 1) else n

-- The calls of syslog for some lines, the first with number `n`. A line counts up to its first NUL.
abbrev pub entries_of : Options → ℕ → List Bytes → List Entry
entries_of o n [] = []
entries_of o n (line ∷ lines) =
    record {
      level = bit_or o.facility o.priority;
      text = if o.use_linecnt then padded 3 n ++ (codes ": " ++ c_string line) else c_string line;
    }
    ∷ entries_of o (count_after o n) lines

abbrev pub count_of : Options → ℕ → List Bytes → ℕ
count_of o n [] = n
count_of o n (line ∷ lines) = count_of o (count_after o n) lines

-- `pending` has no line end, and is empty behind a CR.
pub record IsStream (s : Stream) : Type 0 where
  pub inside : All is_inside s.pending
  pub empty : s.after_cr ≡ true → s.pending ≡ []

pub consume-append :
    (s : Stream) (a b : Bytes)
    → consume s (a ++ b)
      ≡ ((consume (consume s a).0 b).0, (consume s a).1 ++ (consume (consume s a).0 b).1)
unfolding consume
consume-append s [] b = refl
consume-append s (c ∷ a) b = ground (
  arith,
  consume-append (record { pending = []; after_cr = true }) a b,
  consume-append (record { pending = s.pending; after_cr = false }) a b,
  consume-append (record { pending = s.pending ++ c ∷ []; after_cr = false }) a b,
)

pub consume-inside :
    (q p t : Bytes)
    → All is_inside p
    → consume (record { pending = q; after_cr = false }) (p ++ t)
      ≡ consume (record { pending = q ++ p; after_cr = false }) t
unfolding consume
consume-inside q [] t h = rw append-nil
consume-inside q (c ∷ p) t h =
    let later = consume-inside (q ++ c ∷ []) p t h.1 in
    let whole : (q ++ c ∷ []) ++ p ≡ q ++ c ∷ p = append_assoc q (c ∷ []) p in ground arith

pub inside-IsCrLf : (t : Bytes) → All (is_other b'\r') t → IsCrLf false t → All is_inside t
inside-IsCrLf [] h d = tt
inside-IsCrLf (c ∷ t) h d =
    let no_cr : (c == b'\r') ≡ false = ground arith in
    (ground arith, inside-IsCrLf t h.1 (rw no_cr at d.1))

pub IsCrLf-inside : (p t : Bytes) → All is_inside p → IsCrLf false t → IsCrLf false (p ++ t)
IsCrLf-inside [] t h d = d
IsCrLf-inside (c ∷ p) t h d =
    let no_cr : (c == b'\r') ≡ false = ground arith in
    (ground arith, rw no_cr (IsCrLf-inside p t h.1 d))

pub IsCrLf-behind :
    (p t : Bytes) (c : ℕ) (cr : Bool) → IsCrLf cr (p ++ c ∷ t) → IsCrLf (c == b'\r') t
IsCrLf-behind [] t c cr d = d.1
IsCrLf-behind (b ∷ p) t c cr d = IsCrLf-behind p t c (b == b'\r') d.1

pub IsCrLf-append_left : (a b : Bytes) (cr : Bool) → IsCrLf cr (a ++ b) → IsCrLf cr a
IsCrLf-append_left [] b cr d = tt
IsCrLf-append_left (c ∷ a) b cr d = (d.0, IsCrLf-append_left a b (c == b'\r') d.1)

-- The discipline goes on from where the first bytes leave the stream.
pub IsCrLf-append_right :
    (s : Stream) (a b : Bytes) → IsCrLf s.after_cr (a ++ b) → IsCrLf (consume s a).0.after_cr b
unfolding consume
IsCrLf-append_right s [] b d = d
IsCrLf-append_right s (c ∷ a) b d = ground (
  arith,
  IsCrLf-append_right (record { pending = []; after_cr = true }) a b,
  IsCrLf-append_right (record { pending = s.pending; after_cr = false }) a b,
  IsCrLf-append_right (record { pending = s.pending ++ c ∷ []; after_cr = false }) a b,
)

pub consume-IsStream :
    (s : Stream) (a : Bytes) → IsStream s → IsCrLf s.after_cr a → IsStream (consume s a).0
unfolding consume
consume-IsStream s [] v d = v
consume-IsStream s (c ∷ a) v d = elim (Bool-cases (c == b'\r')) [
  | inl cr ↦ rw cr (
      consume-IsStream (record { pending = []; after_cr = true }) a
        (record { inside = tt; empty = λ _. refl }) (rw cr at d.1))
  | inr no_cr ↦ elim (Bool-cases (c == b'\n' && s.after_cr)) [
    | inl skipped ↦
        rw (no_cr, skipped)
          (consume-IsStream (record { pending = s.pending; after_cr = false }) a
            (record { inside = v.inside; empty = λ e. cc }) (rw no_cr at d.1))
    | inr taken ↦
        let kept : is_inside c ≡ true = ground arith in
        rw (no_cr, taken)
          (consume-IsStream (record { pending = s.pending ++ c ∷ []; after_cr = false }) a
            (record {
              inside = All-append is_inside s.pending (c ∷ []) v.inside (kept, tt);
              empty = λ e. cc;
            })
            (rw no_cr at d.1))
  ]
]

pub consume-newline :
    (t : Bytes)
    → consume (record { pending = []; after_cr = true }) (b'\n' ∷ t) ≡ consume at_line_start t
unfolding consume
consume-newline t = refl

pub consume-other :
    (c : ℕ) (t : Bytes)
    → (c == b'\n') ≡ false
    → consume (record { pending = []; after_cr = true }) (c ∷ t) ≡ consume at_line_start (c ∷ t)
unfolding consume
consume-other c t h = rw h

pub consume-return :
    (p t : Bytes)
    → All is_inside p
    → consume at_line_start (p ++ b'\r' ∷ t) ≡ (
      (consume (record { pending = []; after_cr = true }) t).0,
      p ∷ (consume (record { pending = []; after_cr = true }) t).1,
    )
consume-return p t h = consume-inside [] p (b'\r' ∷ t) h ∙ unfold consume in refl

-- Only a CR, which ends a line, leaves the stream behind a CR.
pub consume-after_cr :
    (s : Stream) (t : Bytes) → (consume s t).1 ≡ [] → (consume s t).0.after_cr ≡ true → t ≢ [] → ⊥
unfolding consume
consume-after_cr s [] h e n = n refl
consume-after_cr s (c ∷ []) h e n = ground arith
consume-after_cr s (c ∷ d ∷ t) h e n = ground (
  arith,
  consume-after_cr (record { pending = []; after_cr = true }) (d ∷ t),
  consume-after_cr (record { pending = s.pending; after_cr = false }) (d ∷ t),
  consume-after_cr (record { pending = s.pending ++ c ∷ []; after_cr = false }) (d ∷ t),
)

pub consume-at_line_start :
    (t : Bytes) → (consume at_line_start t).0.after_cr ≡ true → (consume at_line_start t).1 ≢ []
consume-at_line_start [] e h = unfold consume in cc e
consume-at_line_start (c ∷ t) e h = consume-after_cr at_line_start (c ∷ t) h e (ground arith)
