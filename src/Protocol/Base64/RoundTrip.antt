-- ===== src/Protocol/Base64/RoundTrip.antt =====
-- Encoding a path and decoding the payload (internal/protocol/codec.go, EncodePath and DecodePath).
use shell_picker.Base.{
  ℕ, ◌+◌, ◌*◌, ◌/◌, ◌%◌, ◌<◌, ◌≡◌, ◌≢◌, refl, ◌∙◌, ap, some, [], ◌∷◌, Bytes, All, arith,
}
use shell_picker.Protocol.Base64.{
  symbol, value, pad, encode_path, skip_newlines, full_quad, one_pad, decode_quads, strict_decode,
  decode_path, IsByte, IsSymbol,
}

symbol-IsSymbol : (v : ℕ) → v < 64 → IsSymbol (symbol v)
unfolding symbol
symbol-IsSymbol v h = ground arith

symbol-ne-pad : (v : ℕ) → v < 64 → symbol v ≢ pad
unfolding symbol
symbol-ne-pad v h = ground arith

value-symbol : (v : ℕ) → v < 64 → value (symbol v) ≡ some v
unfolding value symbol
value-symbol v h = ground arith

-- The digits of a path are symbols.
pub encode_path-IsSymbol : (p : Bytes) → All IsByte p → All IsSymbol (encode_path p)
unfolding encode_path
encode_path-IsSymbol [] h = tt
encode_path-IsSymbol (a ∷ []) h = (
  symbol-IsSymbol (a / 4) (omega arith),
  (symbol-IsSymbol (a % 4 * 16) (omega arith), (omega arith, (omega arith, tt))),
)
encode_path-IsSymbol (a ∷ b ∷ []) h = (
  symbol-IsSymbol (a / 4) (omega arith),
  (
    symbol-IsSymbol (a % 4 * 16 + b / 16) (omega arith),
    (symbol-IsSymbol (b % 16 * 4) (omega arith), (omega arith, tt)),
  ),
)
encode_path-IsSymbol (a ∷ b ∷ c ∷ rest) h = (
  symbol-IsSymbol (a / 4) (omega arith),
  (
    symbol-IsSymbol (a % 4 * 16 + b / 16) (omega arith),
    (
      symbol-IsSymbol (b % 16 * 4 + c / 64) (omega arith),
      (symbol-IsSymbol (c % 64) (omega arith), encode_path-IsSymbol rest h.1.1.1),
    ),
  ),
)

skip_newlines-IsSymbol : (s : Bytes) → All IsSymbol s → skip_newlines s ≡ s
unfolding skip_newlines
skip_newlines-IsSymbol [] h = refl
skip_newlines-IsSymbol (c ∷ s) h = ground (arith, skip_newlines-IsSymbol s h.1)

decode_quads-full :
    (a b c d : ℕ) (t : Bytes)
    → a < 64
    → b < 64
    → c < 64
    → d < 64
    → decode_quads (symbol a ∷ symbol b ∷ symbol c ∷ symbol d ∷ t)
      ≡ full_quad (some a) (some b) (some c) (some d) (decode_quads t)
unfolding decode_quads
decode_quads-full a b c d [] ha hb hc hd =
    ground (arith, value-symbol a, value-symbol b, value-symbol c, value-symbol d, symbol-ne-pad d)
decode_quads-full a b c d (e ∷ t) ha hb hc hd =
    rw (value-symbol a ha, value-symbol b hb, value-symbol c hc, value-symbol d hd)

decode_quads-one_pad :
    (a b c : ℕ)
    → a < 64
    → b < 64
    → c < 64
    → decode_quads (symbol a ∷ symbol b ∷ symbol c ∷ pad ∷ []) ≡ one_pad (some a) (some b) (some c)
unfolding decode_quads
decode_quads-one_pad a b c ha hb hc =
    rw (value-symbol a ha, value-symbol b hb, value-symbol c hc)
      (ground (arith, symbol-ne-pad c hc))

one_pad-split :
    (a b : ℕ)
    → a < 256
    → b < 256
    → one_pad (some (a / 4)) (some (a % 4 * 16 + b / 16)) (some (b % 16 * 4)) ≡ some (a ∷ b ∷ [])
unfolding one_pad
one_pad-split a b ha hb = ground arith

full_quad-split :
    (a b c : ℕ) (rest : Bytes)
    → a < 256
    → b < 256
    → c < 256
    → full_quad
        (some (a / 4))
        (some (a % 4 * 16 + b / 16))
        (some (b % 16 * 4 + c / 64))
        (some (c % 64))
        (some rest)
      ≡ some (a ∷ b ∷ c ∷ rest)
unfolding full_quad
full_quad-split a b c rest ha hb hc = ground arith

decode_quads-encode_path : (p : Bytes) → All IsByte p → decode_quads (encode_path p) ≡ some p
unfolding encode_path
decode_quads-encode_path [] h = unfold decode_quads in refl
decode_quads-encode_path (a ∷ []) h =
    unfold decode_quads in ground (arith, value-symbol (a / 4), value-symbol (a % 4 * 16))
decode_quads-encode_path (a ∷ b ∷ []) h =
    decode_quads-one_pad (a / 4) (a % 4 * 16 + b / 16) (b % 16 * 4) (omega arith) (omega arith)
      (omega arith)
    ∙ one_pad-split a b h.0 h.1.0
decode_quads-encode_path (a ∷ b ∷ c ∷ rest) h =
    decode_quads-full (a / 4) (a % 4 * 16 + b / 16) (b % 16 * 4 + c / 64) (c % 64)
      (encode_path rest) (omega arith) (omega arith) (omega arith) (omega arith)
    ∙ rw (decode_quads-encode_path rest h.1.1.1) (full_quad-split a b c rest h.0 h.1.0 h.1.1.0)

encode_path-ne-nil : (p : Bytes) → p ≢ [] → encode_path p ≢ []
unfolding encode_path
encode_path-ne-nil [] h = h
encode_path-ne-nil (a ∷ []) h = ground arith
encode_path-ne-nil (a ∷ b ∷ []) h = ground arith
encode_path-ne-nil (a ∷ b ∷ c ∷ rest) h = ground arith

decode_path-ne-nil : (s : Bytes) → s ≢ [] → decode_path s ≡ strict_decode s
unfolding decode_path
decode_path-ne-nil [] h = absurd (h refl)
decode_path-ne-nil (c ∷ s) h = refl

-- Every path of bytes but the empty one is decoded from its payload.
pub decode_path-encode_path :
    (p : Bytes) → All IsByte p → p ≢ [] → decode_path (encode_path p) ≡ some p
unfolding strict_decode
decode_path-encode_path p h ne =
    decode_path-ne-nil (encode_path p) (encode_path-ne-nil p ne)
    ∙ ap decode_quads (skip_newlines-IsSymbol (encode_path p) (encode_path-IsSymbol p h))
    ∙ decode_quads-encode_path p h
