-- ===== src/Fzfsidecar/State.antt =====
-- internal/fzfsidecar/state.go: a checked state of fzf with its label, and the reading of a label.
-- Counts are not negative, as those that are read are.
pub mod Label
use shell_picker.Base.{
  ℕ, ◌^◌, ◌-◌, Bool, true, false, not, ◌&&◌, ◌||◌, ◌==◌, leb, ltb, if◌then◌else◌, Option, none,
  some, List, [], ◌∷◌, ◌++◌, Bytes, codes, all, length, bytes_eq, Result, ok, err, guard, ◌>>=◌,
  ◌>>◌, cut, prepend, count, is_some,
}
use shell_picker.Base.Decimal.{number, first_of, is_digit}
use shell_picker.Protocol.Types.{Picker, cd, cp}
use shell_picker.Callback.Finder.{CountError, validate_counts, format}

pub data StateError : Type 0 where
  invalid_state invalid_action : StateError

-- `fzfState`.
pub record State : Type 0 where
  pub picker : Picker
  pub matched : ℕ
  pub total : ℕ
  pub selected : ℕ
  pub formatted : Bytes

abbrev as_state_error {ℓ} : {A : Type ℓ} → Result CountError A → Result StateError A
as_state_error (ok a) = ok a
as_state_error (err e) = err invalid_state

-- `validate`.
unfoldable pub validate : Picker → ℕ → ℕ → ℕ → Result StateError (Unit {0})
unfolding validate_counts
validate picker matched total selected = do
  as_state_error (validate_counts picker matched total selected)
  guard (leb matched total && leb selected total) invalid_state
  ok tt

-- `renderedLabel`.
unfoldable pub rendered_label : Picker → ℕ → ℕ → ℕ → Result StateError Bytes
unfolding validate format
rendered_label picker matched total selected =
    validate picker matched total selected >> as_state_error (format picker matched total selected)

-- `newFZFState`.
unfoldable pub new_state : Picker → ℕ → ℕ → ℕ → Result StateError State
unfolding rendered_label
new_state picker matched total selected = do
  text ← rendered_label picker matched total selected
  ok (record {
    picker = picker;
    matched = matched;
    total = total;
    selected = selected;
    formatted = text;
  })

abbrev action_of : Result StateError Bytes → Result StateError Bytes
action_of (ok text) = ok (codes "change-list-label:" ++ text)
action_of (err e) = err invalid_action

-- `actionBody`.
unfoldable pub action_body : State → Result StateError Bytes
unfolding rendered_label
action_body s = action_of (rendered_label s.picker s.matched s.total s.selected)

-- The greatest int, above which strconv.Atoi fails.
abbrev pub max_int : ℕ
max_int = 2 ^ 63 - 1

-- `parseCanonicalCount`.
unfoldable pub parse_canonical_count : Bytes → Option ℕ
unfolding number
parse_canonical_count value =
    if bytes_eq value [] || (ltb 1 (length value) && first_of value == b'0')
    then none
    else if not (all is_digit value)
    then none
    else if ltb max_int (number value)
    then none
    else some (number value)

-- What stands before the first ` (` and what stands after it.
unfoldable pub cut_marker : Bytes → Option (Bytes × Bytes)
cut_marker [] = none
cut_marker (x ∷ []) = none
cut_marker (x ∷ y ∷ s) =
    let rest = cut_marker (y ∷ s) in if x == b' ' && y == b'(' then some ([], s) else prepend x rest

-- The text without a last `)`.
unfoldable pub without_close : Bytes → Option Bytes
without_close [] = none
without_close (x ∷ []) = if x == b')' then some [] else none
without_close (x ∷ y ∷ s) = elim (without_close (y ∷ s)) [ none ↦ none | some t ↦ some (x ∷ t) ]

abbrev checked_label : Bytes → Result StateError State → Result StateError State
checked_label label (ok s) = if bytes_eq s.formatted label then ok s else err invalid_action
checked_label label (err e) = err invalid_action

abbrev label_of : Bytes → Picker → Option ℕ → Option ℕ → Option ℕ → Result StateError State
label_of label picker (some matched) (some total) (some selected) =
    checked_label label (new_state picker matched total selected)
label_of label picker _ _ _ = err invalid_action

abbrev not_zero : Option ℕ → Option ℕ
not_zero none = none
not_zero (some n) = if n == 0 then none else some n

abbrev closed_count : Option Bytes → Option ℕ
closed_count none = none
closed_count (some text) = not_zero (parse_canonical_count text)

-- The count of a text that ends in `)` and has no second ` (`.
abbrev selected_count : Bytes → Option ℕ
selected_count text = if is_some (cut_marker text) then none else closed_count (without_close text)

abbrev parse_total : Bytes → Option ℕ → Bytes → Option (Bytes × Bytes) → Result StateError State
parse_total label matched text none =
    label_of label cd matched (parse_canonical_count text) (some 0)
parse_total label matched text (some (total, rest)) =
    label_of label cp matched (parse_canonical_count total) (selected_count rest)

abbrev parse_halves : Bytes → Option (Bytes × Bytes) → Result StateError State
parse_halves label none = err invalid_action
parse_halves label (some (matched, text)) =
    if bytes_eq matched [] || not (count b'/' text == 0)
    then err invalid_action
    else parse_total label (parse_canonical_count matched) text (cut_marker text)

-- `parseFormattedLabel`.
unfoldable pub parse_formatted_label : Bytes → Result StateError State
unfolding cut
parse_formatted_label label = parse_halves label (cut b'/' label)
