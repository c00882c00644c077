-- ===== src/Protocol/Display/Plain.antt =====
-- A displayed path can stand in a record (internal/protocol/codec.go, EscapeDisplay).
use shell_picker.Base.{
  ℕ, zero, suc, ◌≤◌, ◌<◌, ◌≡◌, refl, Bool, true, [], ◌∷◌, Bytes, All, All-append, length, take,
  drop, count, arith, lt-cases, inl, inr,
}
use shell_picker.Protocol.Utf8.{decode_rune}
use shell_picker.Protocol.Utf8.Bounds.{IsHigh, decode_rune-IsHigh}
use shell_picker.Protocol.Display.{
  hex_escape, hex_escapes, escape_rune, escape_round, escape_from, escape_display,
}

-- No control character.
abbrev pub IsText : ℕ → Type 0
IsText c = 32 ≤ c

hex_escape-IsText : (b : ℕ) → All IsText (hex_escape b)
unfolding hex_escape
hex_escape-IsText b = ground arith

hex_escapes-IsText : (s : Bytes) → All IsText (hex_escapes s)
unfolding hex_escapes
hex_escapes-IsText [] = tt
hex_escapes-IsText (b ∷ s) =
    All-append IsText (hex_escape b) (hex_escapes s) (hex_escape-IsText b) (hex_escapes-IsText s)

IsHigh-IsText : (s : Bytes) → All IsHigh s → All IsText s
IsHigh-IsText [] h = tt
IsHigh-IsText (c ∷ s) h = (omega arith, IsHigh-IsText s h.1)

pub decode_rune_ascii :
    (b : ℕ) (rest : Bytes)
    → b < 128
    → ((decode_rune b rest).code ≡ b) × ((decode_rune b rest).size ≡ 1)
unfolding decode_rune
decode_rune_ascii b rest h = ground arith

pub count-IsText : (c : ℕ) (s : Bytes) → c < 32 → All IsText s → count c s ≡ 0
count-IsText c [] h a = refl
count-IsText c (x ∷ s) h a = ground (arith, count-IsText c s h a.1)

-- What unicode.IsGraphic promises of ASCII: no control character is graphic.
module _ (graphic : ℕ → Bool) (graphic_text : (c : ℕ) → graphic c ≡ true → IsText c) where
  rune-IsText :
      (b : ℕ) (rest : Bytes)
      → graphic (decode_rune b rest).code ≡ true
      → All IsText (take (decode_rune b rest).size (b ∷ rest))
  rune-IsText b rest g = elim (lt-cases b 128) [
    | inl low ↦ let e = decode_rune_ascii b rest low in rw e.1 (graphic_text b (rw e.0 at g), tt)
    | inr high ↦ IsHigh-IsText _ (decode_rune-IsHigh b rest high)
  ]

  escape_round-IsText : (b : ℕ) (rest : Bytes) → All IsText (escape_round graphic b rest).0
  unfolding escape_round escape_rune
  escape_round-IsText b rest = ground (
    arith,
    hex_escape-IsText b,
    hex_escapes-IsText (take (decode_rune b rest).size (b ∷ rest)),
    rune-IsText b rest,
  )

  escape_from-IsText : (fuel : ℕ) (s : Bytes) → All IsText (escape_from graphic fuel s)
  unfolding escape_from
  escape_from-IsText fuel [] = tt
  escape_from-IsText zero (b ∷ s) = tt
  escape_from-IsText (suc fuel) (b ∷ s) =
      All-append IsText _ _ (escape_round-IsText b s)
        (escape_from-IsText fuel (drop (escape_round graphic b s).1 (b ∷ s)))

  -- When no control character is graphic, a displayed path holds none, so no NUL, tab or line end.
  pub escape_display-IsText : (path : Bytes) → All IsText (escape_display graphic path)
  unfolding escape_display
  escape_display-IsText path = escape_from-IsText (length path) path
