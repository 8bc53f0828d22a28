-- ===== src/Syslog/TokenSteps.antt =====
-- The steps of the escape filter on the bytes of a terminal's output.
use rootsh.Base.{
  ℕ, ◌<◌, ◌≡◌, refl, Bool, true, false, not, [], ◌∷◌, ◌++◌, ltb, if◌then◌else◌, All, holds_below,
  holds_below_at, arith,
}
use rootsh.Text.{Bytes}
use rootsh.Syslog.Strip.{
  VtState, normal, esc, csi, dcs, dcs_string, osc, osc_string, drop_one, dec_set, is_control,
  strip_control, strip_text, strip_switch, strip_byte, Stripped,
}
use rootsh.Syslog.Filtered.{filtered}
use rootsh.Syslog.Tokens.{is_plain, is_parameter, is_final, is_printable, is_second, is_designator}

abbrev ends_escape : Stripped → Bool
ends_escape (normal, []) = true
ends_escape other = false

control_table :
    holds_below (λ c. if ltb c 0x20 then is_control c else not (is_control c)) 0x7F ≡ true
unfolding holds_below is_control
control_table = refl

is_control-ascii : (c : ℕ) → c < 0x7F → is_control c ≡ ltb c 0x20
is_control-ascii c l = ground (arith, holds_below_at _ 0x7F c l control_table)

-- Bytes that leave the machine in its state are dropped.
pub filtered-stays :
    (state : VtState) (p : ℕ → Bool)
    → ((c : ℕ) → p c ≡ true → strip_byte state c ≡ (state, []))
    → (s t : Bytes) → All p s
    → filtered state (s ++ t) ≡ filtered state t
unfolding filtered
filtered-stays state p stays [] t h = refl
filtered-stays state p stays (c ∷ s) t h = rw (stays c h.0) (filtered-stays state p stays s t h.1)

-- A byte that only changes the state.
pub filtered-goes :
    (state next : VtState) (c : ℕ) (t : Bytes)
    → strip_byte state c ≡ (next, [])
    → filtered state (c ∷ t) ≡ filtered next t
unfolding filtered
filtered-goes state next c t h = rw h

pub strip_byte-is_plain : (c : ℕ) → is_plain c ≡ true → strip_byte normal c ≡ (normal, c ∷ [])
unfolding strip_byte strip_switch strip_control strip_text
strip_byte-is_plain c h = ground (arith, is_control-ascii c)

-- The steps that the parameters, the final byte and the text of a control function take.
module _ (c : ℕ) where
  pub at_parameter :
      is_parameter c ≡ true
      → (strip_byte csi c ≡ (csi, []))
        × (strip_byte dcs c ≡ (dcs, []))
        × (strip_byte osc c ≡ (osc, []))
  unfolding strip_byte strip_switch strip_control strip_text
  at_parameter h = ground (arith, is_control-ascii c)

  pub at_final :
      is_final c ≡ true
      → (strip_byte csi c ≡ (normal, []))
        × (strip_byte dcs c ≡ (dcs_string, []))
        × (strip_byte osc c ≡ (osc_string, []))
  unfolding strip_byte strip_switch strip_control strip_text
  at_final h = ground (arith, is_control-ascii c)

  pub at_text :
      is_printable c ≡ true
      → (strip_byte dcs_string c ≡ (dcs_string, [])) × (strip_byte osc_string c ≡ (osc_string, []))
  unfolding strip_byte strip_switch strip_control strip_text
  at_text h = ground (arith, is_control-ascii c)

  -- The second byte of a sequence of two or three, behind ESC.
  pub at_designator : is_designator c ≡ true → strip_byte esc c ≡ (drop_one, [])
  unfolding strip_byte strip_switch strip_control strip_text
  at_designator h = ground (arith, is_control-ascii c)

-- A byte from 0x30 to 0x7E behind ESC, other than the five that open a control function.
second_table :
    holds_below (λ c. if is_second c then ends_escape (strip_byte esc c) else true) 0x7F ≡ true
unfolding holds_below strip_byte strip_switch strip_control strip_text is_control
second_table = refl

only_ends : (r : Stripped) → ends_escape r ≡ true → r ≡ (normal, [])
only_ends (normal, []) h = refl
only_ends (normal, c ∷ s) h = cc
only_ends (esc, s) h = cc
only_ends (csi, s) h = cc
only_ends (dcs, s) h = cc
only_ends (dcs_string, s) h = cc
only_ends (osc, s) h = cc
only_ends (osc_string, s) h = cc
only_ends (drop_one, s) h = cc
only_ends (dec_set, s) h = cc

pub at_second : (c : ℕ) → is_second c ≡ true → strip_byte esc c ≡ (normal, [])
at_second c h =
    let found = holds_below_at _ 0x7F c (ground arith) second_table in
    only_ends (strip_byte esc c) (rw h at found)

pub open_escape : (t : Bytes) → filtered normal (0x1B ∷ t) ≡ filtered esc t
unfolding filtered strip_byte strip_switch
open_escape t = refl
