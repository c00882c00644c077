-- ===== src/Protocol/Base64.antt =====
-- encoding/base64 of Go's library, as internal/protocol uses it: `StdEncoding.EncodeToString` and
-- `StdEncoding.Strict().DecodeString`, with EncodePath and DecodePath of internal/protocol/codec.go.
pub mod RoundTrip
use shell_picker.Base.{
  ℕ, zero, suc, ◌+◌, ◌-◌, ◌*◌, ◌/◌, ◌%◌, ◌<◌, ◌≡◌, refl, Bool, true, false, ◌&&◌, ◌||◌, ◌==◌, ltb,
  leb, if◌then◌else◌, Option, none, some, List, [], ◌∷◌, ◌++◌, Bytes, All, arith,
}

-- The digit of a value below 64.
symbol : ℕ → ℕ
symbol v =
    if ltb v 26
    then v + 65
    else if ltb v 52
    then v + 71
    else if ltb v 62
    then v - 52 + 48
    else if v == 62
    then 43
    else 47

value : ℕ → Option ℕ
value c =
    if leb 65 c && leb c 90
    then some (c - 65)
    else if leb 97 c && leb c 122
    then some (c - 71)
    else if leb 48 c && leb c 57
    then some (c - 48 + 52)
    else if c == 43
    then some 62
    else if c == 47
    then some 63
    else none

abbrev pub pad : ℕ
pad = 61

-- Three bytes to four digits; one or two bytes at the end are padded.
unfoldable pub encode_path : Bytes → Bytes
unfolding symbol
encode_path [] = []
encode_path (a ∷ []) = symbol (a / 4) ∷ symbol (a % 4 * 16) ∷ pad ∷ pad ∷ []
encode_path (a ∷ b ∷ []) =
    symbol (a / 4) ∷ symbol (a % 4 * 16 + b / 16) ∷ symbol (b % 16 * 4) ∷ pad ∷ []
encode_path (a ∷ b ∷ c ∷ rest) =
    symbol (a / 4)
    ∷ symbol (a % 4 * 16 + b / 16)
    ∷ symbol (b % 16 * 4 + c / 64)
    ∷ symbol (c % 64)
    ∷ encode_path rest

-- The decoder skips line ends.
skip_newlines : Bytes → Bytes
skip_newlines [] = []
skip_newlines (c ∷ s) = if c == b'\n' || c == b'\r' then skip_newlines s else c ∷ skip_newlines s

-- The bytes of four digits, before the bytes of the rest.
full_quad : Option ℕ → Option ℕ → Option ℕ → Option ℕ → Option Bytes → Option Bytes
full_quad (some a) (some b) (some c) (some d) (some rest) =
    some ((a * 4 + b / 16) ∷ (b % 16 * 16 + c / 4) ∷ (c % 4 * 64 + d) ∷ rest)
full_quad _ _ _ _ _ = none

-- Strict: the bits that padding leaves over are zero.
two_pads : Option ℕ → Option ℕ → Option Bytes
two_pads (some a) (some b) = if b % 16 == 0 then some ((a * 4 + b / 16) ∷ []) else none
two_pads _ _ = none

one_pad : Option ℕ → Option ℕ → Option ℕ → Option Bytes
one_pad (some a) (some b) (some c) =
    if c % 4 == 0 then some ((a * 4 + b / 16) ∷ (b % 16 * 16 + c / 4) ∷ []) else none
one_pad _ _ _ = none

decode_quads : Bytes → Option Bytes
unfolding value full_quad two_pads one_pad
decode_quads [] = some []
decode_quads (a ∷ b ∷ c ∷ d ∷ []) =
    if d == pad
    then (if c == pad then two_pads (value a) (value b) else one_pad (value a) (value b) (value c))
    else full_quad (value a) (value b) (value c) (value d) (some [])
decode_quads (a ∷ b ∷ c ∷ d ∷ e ∷ rest) =
    full_quad (value a) (value b) (value c) (value d) (decode_quads (e ∷ rest))
decode_quads _ = none

unfoldable pub strict_decode : Bytes → Option Bytes
unfolding skip_newlines decode_quads
strict_decode s = decode_quads (skip_newlines s)

-- An empty payload is refused.
unfoldable pub decode_path : Bytes → Option Bytes
unfolding strict_decode
decode_path [] = none
decode_path (c ∷ s) = strict_decode (c ∷ s)

abbrev pub IsByte : ℕ → Type 0
IsByte b = b < 256

-- A digit or the padding: no NUL, tab, line end or other separator is among them.
abbrev pub IsSymbol : ℕ → Type 0
IsSymbol c = (42 < c) × (c < 123)
