-- ===== src/Callback/Finder.antt =====
-- internal/finderinfo/info.go, and the reading of fzf's counts in
-- internal/callback/display.go. The environment is a function; a count is not negative, as those
-- that are read are.
pub mod Counts
use shell_picker.Base.{
  ℕ, ◌^◌, Bool, true, false, not, ◌&&◌, ◌||◌, ◌==◌, leb, ltb, if◌then◌else◌, Option, none, some,
  List, [], ◌∷◌, ◌++◌, Bytes, codes, all, length, bytes_eq, Result, ok, err, guard, ◌>>=◌, ◌>>◌,
}
use shell_picker.Base.Decimal.{decimal, number, first_of, is_digit}
use shell_picker.Protocol.Types.{Picker, cd, cp, other_picker}

-- `MaxCount`.
abbrev pub max_count : ℕ
max_count = 1000000000

pub data CountError : Type 0 where
  invalid_picker invalid_count : CountError

abbrev pub is_known_picker : Picker → Bool
is_known_picker other_picker = false
is_known_picker _ = true

unfoldable pub valid_count : ℕ → Bool
valid_count n = leb n max_count

-- `ValidateCounts`.
unfoldable pub validate_counts : Picker → ℕ → ℕ → ℕ → Result CountError (Unit {0})
unfolding valid_count
validate_counts picker matched total selected = do
  guard (is_known_picker picker) invalid_picker
  guard (valid_count matched && valid_count total && valid_count selected) invalid_count
  ok tt

abbrev is_cp : Picker → Bool
is_cp cp = true
is_cp _ = false

unfoldable pub count_text : Picker → ℕ → ℕ → ℕ → Bytes
unfolding decimal
count_text picker matched total selected =
    let base = decimal matched ++ (codes "/" ++ decimal total) in
    if is_cp picker && ltb 0 selected
    then base ++ (codes " (" ++ (decimal selected ++ codes ")"))
    else base

-- `Format`.
unfoldable pub format : Picker → ℕ → ℕ → ℕ → Result CountError Bytes
unfolding validate_counts count_text
format picker matched total selected =
    validate_counts picker matched total selected >> ok (count_text picker matched total selected)

-- `parseCanonicalDecimal`; at the lengths that are used, Atoi does not overflow.
unfoldable pub parse_canonical_decimal : Bytes → ℕ → ℕ → Bool → Option ℕ
unfolding number
parse_canonical_decimal raw maximum max_digits allow_zero =
    if bytes_eq raw []
      || ltb max_digits (length raw)
      || (ltb 1 (length raw) && first_of raw == b'0')
    then none
    else if not (all is_digit raw)
    then none
    else if ltb maximum (number raw) || (number raw == 0 && not allow_zero)
    then none
    else some (number raw)

abbrev text_or_nothing : Result CountError Bytes → Bytes
text_or_nothing (ok text) = text
text_or_nothing (err e) = []

abbrev info_of : Picker → Option ℕ → Option ℕ → Option ℕ → Bytes
info_of picker (some matched) (some total) (some selected) =
    text_or_nothing (format picker matched total selected)
info_of picker _ _ _ = []

-- `finderInfo`.
unfoldable pub finder_info : Picker → (Bytes → Bytes) → Bytes
unfolding parse_canonical_decimal format
finder_info picker lookup_env =
    info_of picker
      (parse_canonical_decimal (lookup_env (codes "FZF_MATCH_COUNT")) max_count 10 true)
      (parse_canonical_decimal (lookup_env (codes "FZF_TOTAL_COUNT")) max_count 10 true)
      (parse_canonical_decimal (lookup_env (codes "FZF_SELECT_COUNT")) max_count 10 true)
