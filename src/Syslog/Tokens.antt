-- ===== src/Syslog/Tokens.antt =====
-- What a terminal is sent: printable text and format effectors, escape sequences, control sequences,
-- and control strings, in the forms of ECMA-48. An independent description of the input of
-- `stripesc`. Two forms are left out: SOS with its string, so that ESC X counts here as an escape
-- sequence of two bytes, and the end of a control string by the single byte 0x9C.
use rootsh.Base.{ℕ, ◌+◌, ◌≡◌, Bool, true, not, ◌&&◌, ◌||◌, List, [], ◌∷◌, ◌++◌, ◌==◌, leb, All}
use rootsh.Text.{Bytes}

-- A printable ASCII character, or one of BEL to CR.
abbrev pub is_plain : ℕ → Bool
is_plain c = leb 0x20 c && leb c 0x7E || leb 0x07 c && leb c 0x0D

-- A parameter or intermediate byte of a control sequence.
abbrev pub is_parameter : ℕ → Bool
is_parameter c = leb 0x20 c && leb c 0x3F

abbrev pub is_final : ℕ → Bool
is_final c = leb 0x40 c && leb c 0x7E

abbrev pub is_printable : ℕ → Bool
is_printable c = leb 0x20 c && leb c 0x7E

-- The second byte of a sequence of two: it begins no control sequence and none of the control
-- strings below.
abbrev pub is_second : ℕ → Bool
is_second c =
    leb 0x30 c && leb c 0x7E && not (c == b'[' || c == b'P' || c == b']' || c == b'^' || c == b'_')

-- The second byte of a sequence of three: the designation of a character set, and its like.
abbrev pub is_designator : ℕ → Bool
is_designator c = c == b'#' || c == b' ' || c == b'(' || c == b')' || c == b'*' || c == b'+'

-- A control function is introduced by ESC and a byte, or by the one byte that stands for the two.
pub data Coding : Type 0 where
  seven_bit eight_bit : Coding

-- The strings that a terminal keeps to itself: device control, privacy message, and application.
pub data Control : Type 0 where
  device privacy application : Control

-- What ends the string of an operating system command.
pub data Ending : Type 0 where
  bell terminator : Ending

pub data Token : Type 0 where
  character : ℕ → Token
  escape : ℕ → Token
  designation : ℕ → ℕ → Token
  sequence : Coding → Bytes → ℕ → Token
  command : Coding → Bytes → ℕ → Bytes → Ending → Token
  control : Coding → Control → Bytes → ℕ → Bytes → Token

abbrev pub introduce : Coding → ℕ → Bytes → Bytes
introduce seven_bit c rest = 0x1B ∷ c ∷ rest
introduce eight_bit c rest = (c + 0x40) ∷ rest

abbrev pub opener : Control → ℕ
opener device = b'P'
opener privacy = b'^'
opener application = b'_'

abbrev pub end_string : Ending → Bytes → Bytes
end_string bell rest = 0x07 ∷ rest
end_string terminator rest = 0x1B ∷ 0x5C ∷ rest

-- The bytes of a token, with the bytes behind it.
abbrev pub render : Token → Bytes → Bytes
render (character c) rest = c ∷ rest
render (escape c) rest = 0x1B ∷ c ∷ rest
render (designation c d) rest = 0x1B ∷ c ∷ d ∷ rest
render (sequence coding parameters final) rest = introduce coding b'[' (parameters ++ final ∷ rest)
render (command coding parameters final text ending) rest =
    introduce coding b']' (parameters ++ final ∷ (text ++ end_string ending rest))
render (control coding kind parameters final text) rest =
    introduce coding (opener kind) (parameters ++ final ∷ (text ++ end_string terminator rest))

abbrev pub render_all : List Token → Bytes → Bytes
render_all [] rest = rest
render_all (token ∷ tokens) rest = render token (render_all tokens rest)

abbrev pub IsToken : Token → Type 0
IsToken (character c) = is_plain c ≡ true
IsToken (escape c) = is_second c ≡ true
IsToken (designation c d) = is_designator c ≡ true
IsToken (sequence coding parameters final) = All is_parameter parameters × (is_final final ≡ true)
IsToken (command coding parameters final text ending) =
    All is_parameter parameters × (is_final final ≡ true) × All is_printable text
IsToken (control coding kind parameters final text) =
    All is_parameter parameters × (is_final final ≡ true) × All is_printable text

abbrev pub AreTokens : List Token → Type 0
AreTokens [] = Unit
AreTokens (token ∷ tokens) = IsToken token × AreTokens tokens

-- What is there to be read.
abbrev pub visible : Token → Bytes
visible (character c) = c ∷ []
visible other = []

abbrev pub visible_all : List Token → Bytes
visible_all [] = []
visible_all (token ∷ tokens) = visible token ++ visible_all tokens
