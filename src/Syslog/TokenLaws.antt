-- ===== src/Syslog/TokenLaws.antt =====
-- The escape filter lets through what there is to be read in a terminal's output, token by token.
use rootsh.Base.{ℕ, ◌≡◌, refl, ◌∙◌, true, List, [], ◌∷◌, ◌++◌, length, All}
use mathlib.Core.List.{append_assoc}
use rootsh.Text.{Bytes}
use rootsh.Syslog.Strip.{
  normal, esc, csi, dcs, dcs_string, osc, osc_string, drop_one, is_control, strip_control,
  strip_switch, strip_byte, strip_loop,
}
use rootsh.Syslog.Filtered.{filtered, strip_loop-filtered}
use rootsh.Syslog.Tokens.{
  is_parameter, is_final, is_printable, Coding, seven_bit, eight_bit, Control, device, privacy,
  application, Ending, bell, terminator, Token, character, escape, designation, sequence, command,
  control, introduce, opener, end_string, render, render_all, IsToken, AreTokens, visible,
  visible_all,
}
use rootsh.Syslog.TokenSteps.{
  filtered-stays, filtered-goes, strip_byte-is_plain, at_parameter, at_final, at_text,
  at_designator, at_second, open_escape,
}

-- A control sequence, a command, and a device control string or its like, behind their opening.
module _ (parameters : Bytes) (final : ℕ) (ps : All is_parameter parameters)
    (f : is_final final ≡ true) where
  filtered-csi : (t : Bytes) → filtered csi (parameters ++ final ∷ t) ≡ filtered normal t
  filtered-csi t =
      filtered-stays csi is_parameter (λ c h. (at_parameter c h).0) parameters (final ∷ t) ps
      ∙ filtered-goes csi normal final t (at_final final f).0

  filtered-osc : (t : Bytes) → filtered osc (parameters ++ final ∷ t) ≡ filtered osc_string t
  filtered-osc t =
      filtered-stays osc is_parameter (λ c h. (at_parameter c h).2) parameters (final ∷ t) ps
      ∙ filtered-goes osc osc_string final t (at_final final f).2

  filtered-dcs : (t : Bytes) → filtered dcs (parameters ++ final ∷ t) ≡ filtered dcs_string t
  filtered-dcs t =
      filtered-stays dcs is_parameter (λ c h. (at_parameter c h).1) parameters (final ∷ t) ps
      ∙ filtered-goes dcs dcs_string final t (at_final final f).1

end_osc :
    (ending : Ending) (t : Bytes) → filtered osc_string (end_string ending t) ≡ filtered normal t
unfolding filtered strip_byte strip_switch strip_control is_control
end_osc bell t = refl
end_osc terminator t = refl

end_dcs : (t : Bytes) → filtered dcs_string (end_string terminator t) ≡ filtered normal t
unfolding filtered strip_byte strip_switch strip_control is_control
end_dcs t = refl

filtered-osc_string :
    (text : Bytes) (ending : Ending) (t : Bytes)
    → All is_printable text
    → filtered osc_string (text ++ end_string ending t) ≡ filtered normal t
filtered-osc_string text ending t h =
    filtered-stays osc_string is_printable (λ c k. (at_text c k).1) text _ h ∙ end_osc ending t

filtered-dcs_string :
    (text t : Bytes)
    → All is_printable text
    → filtered dcs_string (text ++ end_string terminator t) ≡ filtered normal t
filtered-dcs_string text t h =
    filtered-stays dcs_string is_printable (λ c k. (at_text c k).0) text _ h ∙ end_dcs t

open_sequence :
    (coding : Coding) (t : Bytes) → filtered normal (introduce coding b'[' t) ≡ filtered csi t
unfolding filtered strip_byte strip_switch
open_sequence seven_bit t = refl
open_sequence eight_bit t = refl

open_command :
    (coding : Coding) (t : Bytes) → filtered normal (introduce coding b']' t) ≡ filtered osc t
unfolding filtered strip_byte strip_switch
open_command seven_bit t = refl
open_command eight_bit t = refl

open_control :
    (coding : Coding) (kind : Control) (t : Bytes)
    → filtered normal (introduce coding (opener kind) t) ≡ filtered dcs t
unfolding filtered strip_byte strip_switch
open_control seven_bit device t = refl
open_control seven_bit privacy t = refl
open_control seven_bit application t = refl
open_control eight_bit device t = refl
open_control eight_bit privacy t = refl
open_control eight_bit application t = refl

-- A character goes through, and nothing else does.
filtered-render :
    (token : Token) (t : Bytes)
    → IsToken token
    → filtered normal (render token t)
      ≡ ((filtered normal t).0, visible token ++ (filtered normal t).1)
filtered-render (character c) t h = unfold filtered in rw (strip_byte-is_plain c h) refl
filtered-render (escape c) t h = open_escape (c ∷ t) ∙ filtered-goes esc normal c t (at_second c h)
filtered-render (designation c d) t h =
    open_escape (c ∷ d ∷ t)
    ∙ filtered-goes esc drop_one c (d ∷ t) (at_designator c h)
    ∙ filtered-goes drop_one normal d t (unfold strip_byte in refl)
filtered-render (sequence coding parameters final) t h =
    open_sequence coding _ ∙ filtered-csi parameters final h.0 h.1 t
filtered-render (command coding parameters final text ending) t h =
    open_command coding _
    ∙ filtered-osc parameters final h.0 h.1 _
    ∙ filtered-osc_string text ending t h.2
filtered-render (control coding kind parameters final text) t h =
    open_control coding kind _
    ∙ filtered-dcs parameters final h.0 h.1 _
    ∙ filtered-dcs_string text t h.2

filtered-render_all :
    (tokens : List Token) (t : Bytes)
    → AreTokens tokens
    → filtered normal (render_all tokens t)
      ≡ ((filtered normal t).0, visible_all tokens ++ (filtered normal t).1)
filtered-render_all [] t h = refl
filtered-render_all (token ∷ tokens) t h =
    rw
      (
        filtered-render token (render_all tokens t) h.0,
        filtered-render_all tokens t h.1,
        append_assoc,
      )
      refl

-- The loop of `stripesc` is the filter that the grammar of a terminal's output asks for: from the
-- normal state it keeps the printable characters and the format effectors, drops each escape
-- sequence, control sequence, operating system command and control string whole, introduced by ESC
-- or by the one byte that stands for it, and goes on behind them as from the start. The text of a
-- command or control string is printable ASCII, and a byte from `@` to `~` stands before it; BEL may
-- end a command, and ESC with a backslash ends either.
pub strip_loop-visible :
    (tokens : List Token) (t : Bytes)
    → AreTokens tokens
    → let s = render_all tokens t in
      let whole = strip_loop normal [] (length s) s in
      let behind = strip_loop normal [] (length t) t in
      (whole.vtstate ≡ behind.vtstate) × (whole.clean ≡ visible_all tokens ++ behind.clean)
strip_loop-visible tokens t h =
    simp (strip_loop-filtered, filtered-render_all tokens t h) (refl, refl)
