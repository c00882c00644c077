-- ===== src/Protocol/Display.antt =====
-- EscapeDisplay and writeHexEscape of internal/protocol/codec.go: a path as one line of text. The
-- table behind unicode.IsGraphic is the parameter `graphic`.
pub mod Plain
pub mod Lossless
use shell_picker.Base.{
  ℕ, zero, suc, ◌+◌, ◌/◌, ◌%◌, Bool, ◌&&◌, ◌==◌, ltb, if◌then◌else◌, [], ◌∷◌, ◌++◌, Bytes, length,
  take, drop, codes,
}
use shell_picker.Protocol.Utf8.{rune_error, decode_rune}

hex_digit : ℕ → ℕ
hex_digit v = if ltb v 10 then 48 + v else 55 + v

unfoldable pub hex_escape : ℕ → Bytes
unfolding hex_digit
hex_escape b = b'\\' ∷ b'x' ∷ hex_digit (b / 16) ∷ hex_digit (b % 16) ∷ []

unfoldable pub hex_escapes : Bytes → Bytes
hex_escapes [] = []
hex_escapes (b ∷ s) = hex_escape b ++ hex_escapes s

module _ (graphic : ℕ → Bool) where
  -- One round of the loop at a rune that has no short escape.
  unfoldable pub escape_rune : ℕ → Bytes → Bytes × ℕ
  escape_rune b rest =
      let r = decode_rune b rest in
      if r.code == rune_error && r.size == 1
      then (hex_escape b, 1)
      else if graphic r.code
      then (take r.size (b ∷ rest), r.size)
      else (hex_escapes (take r.size (b ∷ rest)), r.size)

  -- One round of the loop: the text written and the bytes consumed.
  unfoldable pub escape_round : ℕ → Bytes → Bytes × ℕ
  escape_round b rest =
      if b == b'\\'
      then (codes "\\\\", 1)
      else if b == b'\''
      then (codes "\\'", 1)
      else if b == b'\t'
      then (codes "\\t", 1)
      else if b == b'\n'
      then (codes "\\n", 1)
      else if b == b'\r'
      then (codes "\\r", 1)
      else escape_rune b rest

  -- A round consumes a byte at least, so the length is fuel enough.
  unfoldable pub escape_from : ℕ → Bytes → Bytes
  escape_from fuel [] = []
  escape_from zero (b ∷ rest) = []
  escape_from (suc fuel) (b ∷ rest) =
      (escape_round b rest).0 ++ escape_from fuel (drop (escape_round b rest).1 (b ∷ rest))

  unfoldable pub escape_display : Bytes → Bytes
  escape_display path = escape_from (length path) path
