-- ===== src/Protocol/Utf8/Bounds.antt =====
-- What decoding a rune takes from the text (unicode/utf8 of Go's library).
use shell_picker.Base.{ℕ, suc, ◌≤◌, [], ◌∷◌, Bytes, All, length, take, arith}
use shell_picker.Protocol.Utf8.{second_low, decode_two, decode_three, decode_four, decode_rune}

-- A rune has between one and four bytes, and no more than the text has.
pub decode_rune_size :
    (b : ℕ) (rest : Bytes)
    → let r = decode_rune b rest in (1 ≤ r.size) × (r.size ≤ suc (length rest))
unfolding decode_rune decode_two decode_three decode_four
decode_rune_size b [] = ground arith
decode_rune_size b (c ∷ []) = ground arith
decode_rune_size b (c ∷ d ∷ []) = ground arith
decode_rune_size b (c ∷ d ∷ e ∷ rest) = ground arith

abbrev pub IsHigh : ℕ → Type 0
IsHigh c = 0x80 ≤ c

second_low_bound : (b : ℕ) → 0x80 ≤ second_low b
unfolding second_low
second_low_bound b = ground arith

decode_two-IsHigh :
    (b : ℕ) (rest : Bytes) → IsHigh b → All IsHigh (take (decode_two b rest).size (b ∷ rest))
unfolding decode_two
decode_two-IsHigh b [] h = (h, tt)
decode_two-IsHigh b (c ∷ rest) h = ground arith

decode_three-IsHigh :
    (b : ℕ) (rest : Bytes) → IsHigh b → All IsHigh (take (decode_three b rest).size (b ∷ rest))
decode_three-IsHigh b [] h = unfold decode_three in (h, tt)
decode_three-IsHigh b (c ∷ []) h = unfold decode_three in (h, tt)
decode_three-IsHigh b (c ∷ d ∷ rest) h = unfold decode_three in ground (arith, second_low_bound b)

decode_four-IsHigh :
    (b : ℕ) (rest : Bytes) → IsHigh b → All IsHigh (take (decode_four b rest).size (b ∷ rest))
decode_four-IsHigh b [] h = unfold decode_four in (h, tt)
decode_four-IsHigh b (c ∷ []) h = unfold decode_four in (h, tt)
decode_four-IsHigh b (c ∷ d ∷ []) h = unfold decode_four in (h, tt)
decode_four-IsHigh b (c ∷ d ∷ e ∷ rest) h = unfold decode_four in ground (arith, second_low_bound b)

-- A rune that starts above ASCII has only bytes above ASCII.
pub decode_rune-IsHigh :
    (b : ℕ) (rest : Bytes) → IsHigh b → All IsHigh (take (decode_rune b rest).size (b ∷ rest))
decode_rune-IsHigh b rest h =
    unfold decode_rune in
    ground (arith, decode_two-IsHigh b rest, decode_three-IsHigh b rest, decode_four-IsHigh b rest)
