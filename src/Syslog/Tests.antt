-- ===== src/Syslog/Tests.antt =====
-- The writer at inputs that can be followed in the source, and its theorems there.
use Prim.Native.String.{String}
use rootsh.Base.{◌≡◌, refl, true, some, List, [], ◌∷◌, ◌++◌, length, All, arith}
use mathlib.Core.List.{flatten}
use rootsh.Text.{Bytes, codes, c_string, memchr, strncpy, padded}
use rootsh.Syslog.Strip.{normal, esc, strip_loop, stripesc}
use rootsh.Syslog.StripLaws.{stripesc-unchanged, is_safe, strip_loop-is_safe}
use rootsh.Syslog.Tokens.{
  Token, character, escape, designation, sequence, command, control, seven_bit, eight_bit, device,
  bell, render_all,
}
use rootsh.Syslog.TokenLaws.{strip_loop-visible}
use rootsh.Syslog.Writer.{
  Writer, Options, Entry, initial, send_line, after_cr, scan, written, keep, write2syslog,
}
use rootsh.Syslog.Stream.{consume, at_line_start, entries_of}
use rootsh.Syslog.Calls.{write_calls, write_calls-stream}

abbrev options : Options
options = record { use_linecnt = true; facility = 168; priority = 5 }

abbrev line : String → Entry
line s = record { level = 173; text = codes s }

-- A prompt in colour.
abbrev prompt : Bytes
prompt = codes "\u{1b}[31m# "

abbrev chunks : List Bytes
chunks = codes "ls\r" ∷ codes "\na b\r\n" ∷ codes "\r\nc" ∷ []

write_calls_runs :
    write_calls options initial chunks
    ≡ written
        (record initial { rptr = some (codes "c"); rflag = true; linecnt = 3 })
        (line "000: ls" ∷ line "001: a b" ∷ line "002: " ∷ [])
unfolding write_calls write2syslog scan send_line after_cr stripesc strncpy c_string memchr padded
write_calls_runs = refl

-- A LF is dropped that does not stand behind the CR: the text between them was kept.
newline_dropped :
    write_calls options initial (codes "a\rb" ∷ codes "\nc\r" ∷ [])
    ≡ written (record initial { rflag = true; linecnt = 2 }) (line "000: a" ∷ line "001: bc" ∷ [])
unfolding write_calls write2syslog scan send_line after_cr stripesc strncpy c_string memchr padded
newline_dropped = refl

strip_loop_runs : (strip_loop normal [] (length prompt) prompt).clean ≡ codes "# "
unfolding strip_loop
strip_loop_runs = refl

stripesc-unchanged_example : (stripesc normal prompt).1 ≡ some (prompt ++ 0 ∷ [])
stripesc-unchanged_example = stripesc-unchanged normal prompt

strip_loop-is_safe_example :
    let end = strip_loop esc [] (length prompt) prompt in
    All is_safe end.clean × (end.buflen ≡ some 0)
strip_loop-is_safe_example = strip_loop-is_safe esc prompt (ground arith)

write_calls-stream_example :
    (w' : Writer) × (write_calls options initial chunks
      ≡ written w' (entries_of options 0 (consume at_line_start (flatten chunks)).1))
    × (w'.rptr ≡ keep (consume at_line_start (flatten chunks)).0.pending)
write_calls-stream_example = write_calls-stream options chunks (unfold flatten in ground arith)

-- A title, a charset, a colour, a device control string, and a letter.
abbrev tokens : List Token
tokens =
    command seven_bit (codes "0;") b'u' (codes "ser") bell
    ∷ designation b'(' b'B'
    ∷ sequence eight_bit (codes "1;3") b'm'
    ∷ control seven_bit device [] b'q' (codes "r s")
    ∷ escape b'7'
    ∷ character b'x'
    ∷ []

strip_loop-visible_example :
    let s = render_all tokens (codes "y") in
    let whole = strip_loop normal [] (length s) s in
    let behind = strip_loop normal [] 1 (codes "y") in
    (whole.vtstate ≡ behind.vtstate) × (whole.clean ≡ codes "x" ++ behind.clean)
strip_loop-visible_example = strip_loop-visible tokens (codes "y") (ground arith)
