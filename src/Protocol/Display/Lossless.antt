-- ===== src/Protocol/Display/Lossless.antt =====
-- The path can be read back from its display (internal/protocol/codec.go, EscapeDisplay). The
-- reader is a specification; the program only writes displays.
use shell_picker.Base.{
  ℕ, zero, suc, ◌+◌, ◌-◌, ◌*◌, ◌/◌, ◌%◌, ◌≤◌, ◌<◌, ◌≡◌, refl, ◌∙◌, ap, Bool, false, ◌==◌, ltb,
  if◌then◌else◌, [], ◌∷◌, ◌++◌, append_assoc, Bytes, All, length, take, drop, take-append-drop,
  arith, lt-cases, inl, inr,
}
use shell_picker.Protocol.Base64.{IsByte}
use shell_picker.Protocol.Utf8.{decode_rune}
use shell_picker.Protocol.Utf8.Bounds.{IsHigh, decode_rune_size, decode_rune-IsHigh}
use shell_picker.Protocol.Display.{
  hex_digit, hex_escape, hex_escapes, escape_rune, escape_round, escape_from, escape_display,
}
use shell_picker.Protocol.Display.Plain.{decode_rune_ascii}

-- Where the reader stands: outside an escape, behind a backslash, behind `\x`, behind one digit.
data Reading : Type 0 where
  plain escaped hex : Reading
  low : ℕ → Reading

hex_value : ℕ → ℕ
hex_value c = if ltb c 58 then c - 48 else c - 55

short_escape : ℕ → ℕ
short_escape c = if c == b't' then 9 else if c == b'n' then 10 else if c == b'r' then 13 else c

-- The byte that is read, if any, and the next state.
emit : Reading → ℕ → Bytes
unfolding short_escape hex_value
emit plain c = if c == b'\\' then [] else c ∷ []
emit escaped c = if c == b'x' then [] else short_escape c ∷ []
emit hex c = []
emit (low h) c = (h * 16 + hex_value c) ∷ []

next : Reading → ℕ → Reading
unfolding hex_value
next plain c = if c == b'\\' then escaped else plain
next escaped c = if c == b'x' then hex else plain
next hex c = low (hex_value c)
next (low h) c = plain

read_from : Reading → Bytes → Bytes
unfolding emit next
read_from m [] = []
read_from m (c ∷ s) = emit m c ++ read_from (next m c) s

pub unescape : Bytes → Bytes
unfolding read_from
unescape s = read_from plain s

-- No backslash.
abbrev IsRaw : ℕ → Type 0
IsRaw c = (c == b'\\') ≡ false

read-raw : (s t : Bytes) → All IsRaw s → read_from plain (s ++ t) ≡ s ++ read_from plain t
unfolding read_from
read-raw [] t h = refl
read-raw (c ∷ s) t h = ground (arith, read-raw s t h.1)

read-short :
    (c : ℕ) (t : Bytes)
    → (c == b'x') ≡ false
    → read_from plain (b'\\' ∷ c ∷ t) ≡ short_escape c ∷ read_from plain t
unfolding read_from
read-short c t h = ground arith

hex_value-hex_digit : (v : ℕ) → v < 16 → hex_value (hex_digit v) ≡ v
unfolding hex_value hex_digit
hex_value-hex_digit v h = ground arith

read-hex_escape :
    (b : ℕ) (t : Bytes) → IsByte b → read_from plain (hex_escape b ++ t) ≡ b ∷ read_from plain t
unfolding read_from hex_escape
read-hex_escape b t h = ground (arith, hex_value-hex_digit (b / 16), hex_value-hex_digit (b % 16))

read-hex_escapes :
    (s t : Bytes) → All IsByte s → read_from plain (hex_escapes s ++ t) ≡ s ++ read_from plain t
unfolding hex_escapes
read-hex_escapes [] t h = refl
read-hex_escapes (b ∷ s) t h =
    rw (append_assoc (hex_escape b) (hex_escapes s) t)
      (read-hex_escape b (hex_escapes s ++ t) h.0 ∙ ap (λ u. b ∷ u) (read-hex_escapes s t h.1))

IsHigh-IsRaw : (s : Bytes) → All IsHigh s → All IsRaw s
IsHigh-IsRaw [] h = tt
IsHigh-IsRaw (c ∷ s) h = (ground arith, IsHigh-IsRaw s h.1)

All-take : (n : ℕ) (s : Bytes) → All IsByte s → All IsByte (take n s)
All-take zero s h = tt
All-take (suc n) [] h = tt
All-take (suc n) (c ∷ s) h = (h.0, All-take n s h.1)

All-drop : (n : ℕ) (s : Bytes) → All IsByte s → All IsByte (drop n s)
All-drop zero s h = h
All-drop (suc n) [] h = tt
All-drop (suc n) (c ∷ s) h = All-drop n s h.1

length-drop : (n : ℕ) (s : Bytes) → length (drop n s) ≡ length s - n
length-drop zero s = omega arith
length-drop (suc n) [] = omega arith
length-drop (suc n) (c ∷ s) = omega (arith, length-drop n s)

rune-IsRaw :
    (b : ℕ) (rest : Bytes)
    → (b == b'\\') ≡ false
    → All IsRaw (take (decode_rune b rest).size (b ∷ rest))
rune-IsRaw b rest h = elim (lt-cases b 128) [
  | inl ascii ↦ rw (decode_rune_ascii b rest ascii).1 (h, tt)
  | inr high ↦ IsHigh-IsRaw _ (decode_rune-IsHigh b rest high)
]

-- What a round writes is read as the bytes that it consumed, one at least.
abbrev Restores : Bytes × ℕ → ℕ → Bytes → Bytes → Type 0
Restores (out, size) b rest t =
    (read_from plain (out ++ t) ≡ take size (b ∷ rest) ++ read_from plain t) × (1 ≤ size)

module _ (graphic : ℕ → Bool) where
  read-escape_rune :
      (b : ℕ) (rest t : Bytes)
      → All IsByte (b ∷ rest)
      → (b == b'\\') ≡ false
      → Restores (escape_rune graphic b rest) b rest t
  unfolding escape_rune
  read-escape_rune b rest t h raw = ground (
    arith,
    read-hex_escape b t h.0,
    read-raw (take (decode_rune b rest).size (b ∷ rest)) t (rune-IsRaw b rest raw),
    read-hex_escapes (take (decode_rune b rest).size (b ∷ rest)) t
        (All-take (decode_rune b rest).size (b ∷ rest) h),
    decode_rune_size b rest,
  )

  -- What a round writes is read as the bytes that it consumed.
  read-escape_round :
      (b : ℕ) (rest t : Bytes)
      → All IsByte (b ∷ rest)
      → Restores (escape_round graphic b rest) b rest t
  unfolding escape_round short_escape
  read-escape_round b rest t h = ground (
    arith,
    read-short b'\\' t refl,
    read-short b'\'' t refl,
    read-short b't' t refl,
    read-short b'n' t refl,
    read-short b'r' t refl,
    read-escape_rune b rest t h,
  )

  read-escape_from :
      (fuel : ℕ) (s : Bytes)
      → All IsByte s
      → length s ≤ fuel
      → read_from plain (escape_from graphic fuel s) ≡ s
  unfolding escape_from
  read-escape_from fuel [] h le = unfold read_from in refl
  read-escape_from zero (b ∷ s) h le = elim le [ ]
  read-escape_from (suc fuel) (b ∷ s) h le =
      let r = escape_round graphic b s in
      let e = read-escape_round b s (escape_from graphic fuel (drop r.1 (b ∷ s))) h in
      e.0
      ∙ ap (λ u. take r.1 (b ∷ s) ++ u)
          (read-escape_from fuel (drop r.1 (b ∷ s)) (All-drop r.1 (b ∷ s) h)
            (omega (arith, length-drop r.1 (b ∷ s), e.1)))
      ∙ take-append-drop r.1 (b ∷ s)

  -- Every path of bytes is read back from its display, whatever is graphic.
  pub unescape-escape_display :
      (path : Bytes) → All IsByte path → unescape (escape_display graphic path) ≡ path
  unfolding unescape escape_display
  unescape-escape_display path h = read-escape_from (length path) path h (omega arith)
