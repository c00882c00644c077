-- ===== src/Protocol/Utf8.antt =====
-- unicode/utf8 of Go's library, as internal/protocol and internal/callback use it: DecodeRune and
-- Valid. A rune is its code point; an invalid byte is decoded as U+FFFD of size 1.
pub mod Bounds
use shell_picker.Base.{
  ℕ, zero, suc, ◌+◌, ◌*◌, ◌%◌, Bool, true, false, ◌&&◌, ◌==◌, ltb, leb, if◌then◌else◌, List, [],
  ◌∷◌, Bytes, length, drop, not,
}

abbrev pub rune_error : ℕ
rune_error = 65533

pub record Rune : Type 0 where
  pub code : ℕ
  pub size : ℕ

abbrev invalid : Rune
invalid = record { code = rune_error; size = 1 }

abbrev within : ℕ → ℕ → ℕ → Bool
within lo hi c = leb lo c && leb c hi

-- The second byte of a sequence has a narrower range after four first bytes.
unfoldable pub second_low : ℕ → ℕ
second_low b = if b == 0xE0 then 0xA0 else if b == 0xF0 then 0x90 else 0x80

unfoldable pub second_high : ℕ → ℕ
second_high b = if b == 0xED then 0x9F else if b == 0xF4 then 0x8F else 0xBF

unfoldable pub decode_four : ℕ → Bytes → Rune
decode_four b (c ∷ d ∷ e ∷ _) =
    if within (second_low b) (second_high b) c && within 0x80 0xBF d && within 0x80 0xBF e
    then record { code = ((b % 8 * 64 + c % 64) * 64 + d % 64) * 64 + e % 64; size = 4 }
    else invalid
decode_four b _ = invalid

unfoldable pub decode_three : ℕ → Bytes → Rune
decode_three b (c ∷ d ∷ _) =
    if within (second_low b) (second_high b) c && within 0x80 0xBF d
    then record { code = (b % 16 * 64 + c % 64) * 64 + d % 64; size = 3 }
    else invalid
decode_three b _ = invalid

unfoldable pub decode_two : ℕ → Bytes → Rune
decode_two b (c ∷ _) =
    if within 0x80 0xBF c then record { code = b % 32 * 64 + c % 64; size = 2 } else invalid
decode_two b _ = invalid

-- `DecodeRune` at a text that is not empty.
unfoldable pub decode_rune : ℕ → Bytes → Rune
decode_rune b rest =
    if ltb b 0x80
    then record { code = b; size = 1 }
    else if within 0xC2 0xDF b
    then decode_two b rest
    else if within 0xE0 0xEF b
    then decode_three b rest
    else if within 0xF0 0xF4 b
    then decode_four b rest
    else invalid

-- `utf8.Valid`. Every round takes a byte at least, so the length is fuel enough.
valid_from : ℕ → Bytes → Bool
valid_from fuel [] = true
valid_from zero (b ∷ rest) = false
valid_from (suc fuel) (b ∷ rest) =
    let r = decode_rune b rest in
    let more = valid_from fuel (drop r.size (b ∷ rest)) in
    if r.code == rune_error && r.size == 1 then false else more

unfoldable pub valid_utf8 : Bytes → Bool
unfolding valid_from
valid_utf8 s = valid_from (length s) s
