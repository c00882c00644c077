-- ===== src/Fzfsidecar/State/Label.antt =====
-- A label is read back as the state that it shows (internal/fzfsidecar/state.go).
use shell_picker.Base.{
  ℕ, ◌≤◌, ◌<◌, ◌≡◌, ◌≢◌, refl, Bool, true, false, ◌==◌, ltb, none, some, [], ◌∷◌, ◌++◌, Bytes,
  codes, All, count, cut-append, bytes_eq_refl, ok, arith, count-append, append_assoc, subst, sym,
  ◌∙◌, if◌then◌else◌, ◌⊎◌, Bool-cases, inl, inr,
}
use shell_picker.Base.Decimal.{
  decimal, IsDigit, decimal-digits, number-decimal, decimal-ne-nil, decimal-leading, length-decimal,
  ten_to,
}
use shell_picker.Callback.Grammar.RoundTrip.{all-is_digit, bytes_eq_nil}
use shell_picker.Protocol.Types.{Picker, cd, cp}
use shell_picker.Callback.Finder.{max_count, validate_counts, valid_count, count_text, format}
use shell_picker.Fzfsidecar.State.{
  State, validate, rendered_label, new_state, parse_canonical_count, cut_marker, without_close,
  parse_formatted_label,
}

count-digits : (c : ℕ) (s : Bytes) → All IsDigit s → c < 48 → count c s ≡ 0
count-digits c [] h k = refl
count-digits c (x ∷ s) h k = ground (arith, count-digits c s)

parse_canonical_count-decimal : (n : ℕ) → n ≤ max_count → parse_canonical_count (decimal n) ≡ some n
unfolding parse_canonical_count
parse_canonical_count-decimal n h = elim (Bool-cases (n == 0)) [
  | inl e ↦ ground (
    arith,
    bytes_eq_nil (decimal n) (decimal-ne-nil n),
    all-is_digit (decimal n) (decimal-digits n),
    number-decimal n,
    length-decimal 0 n (unfold ten_to in ground arith),
  )
  | inr e ↦ ground (
    arith,
    bytes_eq_nil (decimal n) (decimal-ne-nil n),
    all-is_digit (decimal n) (decimal-digits n),
    number-decimal n,
    decimal-leading n,
  )
]

cut_marker-digits : (s : Bytes) → All IsDigit s → cut_marker s ≡ none
unfolding cut_marker
cut_marker-digits [] h = refl
cut_marker-digits (x ∷ []) h = refl
cut_marker-digits (x ∷ y ∷ s) h = ground (arith, cut_marker-digits (y ∷ s))

cut_marker-append :
    (s rest : Bytes) → All IsDigit s → cut_marker (s ++ (codes " (" ++ rest)) ≡ some (s, rest)
unfolding cut_marker
cut_marker-append [] rest h = ground arith
cut_marker-append (x ∷ []) rest h = ground arith
cut_marker-append (x ∷ y ∷ s) rest h = ground (arith, cut_marker-append (y ∷ s) rest)

cut_marker-closed : (s : Bytes) → All IsDigit s → cut_marker (s ++ codes ")") ≡ none
unfolding cut_marker
cut_marker-closed [] h = refl
cut_marker-closed (x ∷ []) h = ground arith
cut_marker-closed (x ∷ y ∷ s) h = ground (arith, cut_marker-closed (y ∷ s))

without_close-append : (s : Bytes) → without_close (s ++ codes ")") ≡ some s
unfolding without_close
without_close-append [] = ground arith
without_close-append (x ∷ []) = ground arith
without_close-append (x ∷ y ∷ s) = ground (arith, without_close-append (y ∷ s))

-- The state of the counts, with the text of them.
abbrev pub shown : Picker → ℕ → ℕ → ℕ → State
shown picker m t s = record {
  picker = picker;
  matched = m;
  total = t;
  selected = s;
  formatted = count_text picker m t s;
}

new_state-shown-cd : (m t : ℕ) → m ≤ t → t ≤ max_count → new_state cd m t 0 ≡ ok (shown cd m t 0)
unfolding new_state rendered_label validate validate_counts valid_count format
new_state-shown-cd m t h k = ground arith

new_state-shown-cp :
    (m t s : ℕ) → m ≤ t → s ≤ t → t ≤ max_count → new_state cp m t s ≡ ok (shown cp m t s)
unfolding new_state rendered_label validate validate_counts valid_count format
new_state-shown-cp m t s h i k = ground arith

-- The two halves of a label, and what is read of each.
parse_halves_cd :
    (a b : Bytes) (m t : ℕ)
    → a ≢ []
    → count 47 a ≡ 0
    → count 47 b ≡ 0
    → cut_marker b ≡ none
    → parse_canonical_count a ≡ some m
    → parse_canonical_count b ≡ some t
    → (st : State) → new_state cd m t 0 ≡ ok st
    → st.formatted ≡ a ++ 47 ∷ b
    → parse_formatted_label (a ++ 47 ∷ b) ≡ ok st
unfolding parse_formatted_label
parse_halves_cd a b m t ne ca cb none_there pa pb st n e =
    ground (arith, cut-append 47 a b ca, bytes_eq_nil a ne, bytes_eq_refl (a ++ 47 ∷ b))

parse_halves_cp :
    (a b c : Bytes) (m t s : ℕ)
    → a ≢ []
    → count 47 a ≡ 0
    → count 47 (b ++ (codes " (" ++ (c ++ codes ")"))) ≡ 0
    → cut_marker (b ++ (codes " (" ++ (c ++ codes ")"))) ≡ some (b, c ++ codes ")")
    → cut_marker (c ++ codes ")") ≡ none
    → without_close (c ++ codes ")") ≡ some c
    → parse_canonical_count a ≡ some m
    → parse_canonical_count b ≡ some t
    → parse_canonical_count c ≡ some s
    → 0 < s
    → (st : State) → new_state cp m t s ≡ ok st
    → st.formatted ≡ a ++ 47 ∷ (b ++ (codes " (" ++ (c ++ codes ")")))
    → parse_formatted_label (a ++ 47 ∷ (b ++ (codes " (" ++ (c ++ codes ")")))) ≡ ok st
unfolding parse_formatted_label
parse_halves_cp a b c m t s ne ca cb marked closed without pa pb pc pos st n e =
    let rest = b ++ (codes " (" ++ (c ++ codes ")")) in
    ground (arith, cut-append 47 a rest ca, bytes_eq_nil a ne, bytes_eq_refl (a ++ 47 ∷ rest))

count_text_cd : (m t : ℕ) → count_text cd m t 0 ≡ decimal m ++ 47 ∷ decimal t
unfolding count_text
count_text_cd m t = refl

taken : (b : Bool) (x y : Bytes) → b ≡ true → (if b then x else y) ≡ x
taken true x y h = refl
taken false x y h = cc

count_text_cp :
    (m t s : ℕ)
    → 0 < s
    → count_text cp m t s
      ≡ decimal m ++ 47 ∷ (decimal t ++ (codes " (" ++ (decimal s ++ codes ")")))
unfolding count_text
count_text_cp m t s h =
    taken (ltb 0 s) _ _ (ground arith)
    ∙ append_assoc (decimal m) (47 ∷ decimal t) (codes " (" ++ (decimal s ++ codes ")"))

-- The slashes of the part behind the first.
no_slash : (t s : ℕ) → count 47 (decimal t ++ (codes " (" ++ (decimal s ++ codes ")"))) ≡ 0
no_slash t s = ground (
  arith,
  count-append 47 (decimal t) (codes " (" ++ (decimal s ++ codes ")")),
  count-append 47 (decimal s) (codes ")"),
  count-digits 47 (decimal t) (decimal-digits t),
  count-digits 47 (decimal s) (decimal-digits s),
)

no_slash_in : (n : ℕ) → count 47 (decimal n) ≡ 0
no_slash_in n = count-digits 47 (decimal n) (decimal-digits n) (omega arith)

parse_cd :
    (m t : ℕ)
    → m ≤ t
    → t ≤ max_count
    → parse_formatted_label (count_text cd m t 0) ≡ ok (shown cd m t 0)
parse_cd m t h k =
    subst (λ x. parse_formatted_label x ≡ ok (shown cd m t 0)) (sym (count_text_cd m t))
      (parse_halves_cd (decimal m) (decimal t) m t (decimal-ne-nil m) (no_slash_in m)
        (no_slash_in t) (cut_marker-digits (decimal t) (decimal-digits t))
        (parse_canonical_count-decimal m (omega arith)) (parse_canonical_count-decimal t k)
        (shown cd m t 0) (new_state-shown-cd m t h k) (count_text_cd m t))

parse_cp :
    (m t s : ℕ)
    → 0 < s
    → m ≤ t
    → s ≤ t
    → t ≤ max_count
    → parse_formatted_label (count_text cp m t s) ≡ ok (shown cp m t s)
parse_cp m t s pos h i k =
    subst (λ x. parse_formatted_label x ≡ ok (shown cp m t s)) (sym (count_text_cp m t s pos))
      (parse_halves_cp (decimal m) (decimal t) (decimal s) m t s (decimal-ne-nil m) (no_slash_in m)
        (no_slash t s) (cut_marker-append (decimal t) (decimal s ++ codes ")") (decimal-digits t))
        (cut_marker-closed (decimal s) (decimal-digits s)) (without_close-append (decimal s))
        (parse_canonical_count-decimal m (omega arith)) (parse_canonical_count-decimal t k)
        (parse_canonical_count-decimal s (omega arith)) pos (shown cp m t s)
        (new_state-shown-cp m t s h i k) (count_text_cp m t s pos))

-- The label that is shown for counts up to the maximum is read back as their state: for cd without
-- selected items, and for cp with some.
pub parse_formatted_label-count_text :
    (p : Picker) (m t s : ℕ)
    → ((p ≡ cd) × (s ≡ 0)) ⊎ ((p ≡ cp) × (0 < s))
    → m ≤ t
    → s ≤ t
    → t ≤ max_count
    → parse_formatted_label (count_text p m t s) ≡ ok (shown p m t s)
parse_formatted_label-count_text p m t s (inl (e, z)) h i k = rw (e, z) (parse_cd m t h k)
parse_formatted_label-count_text p m t s (inr (e, pos)) h i k = rw e (parse_cp m t s pos h i k)
