-- ===== src/Callback/Finder/Counts.antt =====
-- The counts that are read and shown (internal/callback/display.go and
-- internal/finderinfo/info.go).
use shell_picker.Base.{
  ℕ, ◌≤◌, ◌<◌, ◌≡◌, ◌≢◌, ◌⊎◌, refl, sym, ap, ◌∙◌, Bool, true, false, not, ◌&&◌, ◌||◌, ◌==◌, ltb,
  some, [], ◌∷◌, Bytes, codes, all, All, length, bytes_eq, ok, arith, Bool-cases, inl, inr,
}
use shell_picker.Base.Decimal.{
  decimal, number, first_of, is_digit, IsDigit, decimal-digits, number-decimal, decimal-ne-nil,
  decimal-leading, decimal-number, decimal_digit, length-decimal, ten_to,
}
use shell_picker.Callback.Grammar.RoundTrip.{
  all-is_digit, IsDigit-all, bytes_eq_nil, ne_nil, first_digit,
}
use shell_picker.Protocol.Types.{Picker}
use shell_picker.Callback.Finder.{
  max_count, is_known_picker, validate_counts, valid_count, count_text, format,
  parse_canonical_decimal, finder_info, text_or_nothing,
}

one_digit : (n : ℕ) → n < 10 → length (decimal n) ≤ 1
one_digit n h = length-decimal 0 n (unfold ten_to in h)

ten_digits : (n : ℕ) → n ≤ max_count → length (decimal n) ≤ 10
ten_digits n h = length-decimal 9 n (unfold ten_to in omega arith)

zero_or_more : (n : ℕ) → (0 < n) ⊎ (true ≡ true)
zero_or_more n = inr refl

-- A number in the range is read back from its text, 0 included where it is allowed.
pub parse_canonical_decimal-decimal :
    (n maximum digits : ℕ) (allow_zero : Bool)
    → n ≤ maximum
    → length (decimal n) ≤ digits
    → (0 < n) ⊎ (allow_zero ≡ true)
    → parse_canonical_decimal (decimal n) maximum digits allow_zero ≡ some n
unfolding parse_canonical_decimal
parse_canonical_decimal-decimal n maximum digits allow_zero h k z = elim (Bool-cases (n == 0)) [
  | inl e ↦ ground (
    arith,
    bytes_eq_nil (decimal n) (decimal-ne-nil n),
    all-is_digit (decimal n) (decimal-digits n),
    number-decimal n,
    one_digit n (ground arith),
  )
  | inr e ↦ ground (
    arith,
    bytes_eq_nil (decimal n) (decimal-ne-nil n),
    all-is_digit (decimal n) (decimal-digits n),
    number-decimal n,
    decimal-leading n,
  )
]

count_read :
    (n : ℕ) → n ≤ max_count → parse_canonical_decimal (decimal n) max_count 10 true ≡ some n
count_read n h =
    parse_canonical_decimal-decimal n max_count 10 true h (ten_digits n h) (zero_or_more n)

format-ok :
    (picker : Picker) (matched total selected : ℕ)
    → is_known_picker picker ≡ true
    → matched ≤ max_count
    → total ≤ max_count
    → selected ≤ max_count
    → format picker matched total selected ≡ ok (count_text picker matched total selected)
unfolding format validate_counts valid_count
format-ok picker m t s p hm ht hs = ground arith

-- When fzf's environment holds the decimal texts of three counts up to the maximum, the information
-- shown is the text of these counts for the picker.
pub finder_info-count_text :
    (picker : Picker) (lookup_env : Bytes → Bytes) (matched total selected : ℕ)
    → is_known_picker picker ≡ true
    → matched ≤ max_count
    → total ≤ max_count
    → selected ≤ max_count
    → lookup_env (codes "FZF_MATCH_COUNT") ≡ decimal matched
    → lookup_env (codes "FZF_TOTAL_COUNT") ≡ decimal total
    → lookup_env (codes "FZF_SELECT_COUNT") ≡ decimal selected
    → finder_info picker lookup_env ≡ count_text picker matched total selected
unfolding finder_info
finder_info-count_text picker lookup_env m t s p hm ht hs em et es =
    rw (em, et, es, count_read m hm, count_read t ht, count_read s hs)
      (ap text_or_nothing (format-ok picker m t s p hm ht hs))

canonical_text :
    (raw : Bytes)
    → raw ≢ []
    → All IsDigit raw
    → (ltb 1 (length raw) && first_of raw == 48) ≡ false
    → decimal (number raw) ≡ raw
canonical_text [] h k e = absurd (h refl)
canonical_text (c ∷ []) h k e = unfold number in decimal_digit c k.0
canonical_text (c ∷ d ∷ s) h k e =
    decimal-number (c ∷ d ∷ s) k (first_digit (c ∷ d ∷ s) h k (ground arith))

positive_or_allowed :
    (n : ℕ) (allow_zero : Bool)
    → ((n == 0) && not allow_zero) ≡ false
    → (0 < n) ⊎ (allow_zero ≡ true)
positive_or_allowed n true h = inr refl
positive_or_allowed n false h = inl (ground arith)

-- Only the decimal text of a number in the range is read, and 0 only where it is allowed, so a
-- number is read from just one text.
pub parse_canonical_decimal_sound :
    (raw : Bytes) (maximum digits : ℕ) (allow_zero : Bool) (n : ℕ)
    → parse_canonical_decimal raw maximum digits allow_zero ≡ some n
    → (raw ≡ decimal n) × (n ≤ maximum) × (length raw ≤ digits) × ((0 < n) ⊎ (allow_zero ≡ true))
unfolding parse_canonical_decimal
parse_canonical_decimal_sound raw maximum digits allow_zero n h =
    elim (Bool-cases
      (bytes_eq raw [] || ltb digits (length raw) || (ltb 1 (length raw) && first_of raw == 48))) [
        | inl e ↦ absurd (ground arith)
        | inr e ↦ elim (Bool-cases (all is_digit raw)) [
          | inr f ↦ absurd (ground arith)
          | inl f ↦
              let value : number raw ≡ n = ground arith in
              let text =
                canonical_text raw (ne_nil raw (ground arith)) (IsDigit-all raw f) (ground arith) in
              (
                sym text ∙ ap decimal value,
                ground arith,
                ground arith,
                positive_or_allowed n allow_zero (ground arith),
              )
        ]
      ]
