-- ===== src/Session/Records/Lookup.antt =====
-- The index of a record set finds the first record with a key (internal/session/record_set.go and
-- types.go, lookupRecord).
use shell_picker.Base.{
  ℕ, suc, ◌≡◌, refl, ◌∙◌, ap, Bool-cases, inl, inr, Option, none, some, List, [], ◌∷◌, Bytes,
  bytes_eq, eq_of_bytes_eq, if◌then◌else◌, arith, Option-cases,
}
use shell_picker.Candidate.Entry.{Record}
use shell_picker.Session.State.{Snapshot}
use shell_picker.Session.Records.{
  full_record_key, find_position, add_missing, index_from, build_index, own_record_set, at_position,
  lookup_in, lookup_record,
}

-- The position of the first record with the key, counted from `i`.
first_position : Bytes → ℕ → List Record → Option ℕ
first_position key i [] = none
first_position key i (r ∷ rs) =
    if bytes_eq (full_record_key r) key then some i else first_position key (suc i) rs

-- The first record with the key.
unfoldable pub first_match : Bytes → List Record → Option Record
first_match key [] = none
first_match key (r ∷ rs) = if bytes_eq (full_record_key r) key then some r else first_match key rs

abbrev or_else : Option ℕ → Option ℕ → Option ℕ
or_else none o = o
or_else (some i) o = some i

find_position-add_missing :
    (key k : Bytes) (i : ℕ) (index : List (Bytes × ℕ)) (rest : Option ℕ)
    → or_else (find_position key (add_missing (find_position k index) k i index)) rest
      ≡ or_else (find_position key index) (if bytes_eq k key then some i else rest)
unfolding find_position
find_position-add_missing key k i index rest = elim (Option-cases (find_position k index)) [
  | inl e ↦ rw e (ground (arith, eq_of_bytes_eq k key))
  | inr (j, e) ↦ rw e (ground (arith, eq_of_bytes_eq k key))
]

find_position-index_from :
    (key : Bytes) (i : ℕ) (index : List (Bytes × ℕ)) (rs : List Record)
    → find_position key (index_from i index rs)
      ≡ or_else (find_position key index) (first_position key i rs)
unfolding index_from first_position
find_position-index_from key i index [] = ground arith
find_position-index_from key i index (r ∷ rs) =
    find_position-index_from key (suc i)
      (add_missing (find_position (full_record_key r) index) (full_record_key r) i index) rs
    ∙ find_position-add_missing key (full_record_key r) i index (first_position key (suc i) rs)

abbrev next_position : Option ℕ → Option ℕ
next_position none = none
next_position (some i) = some (suc i)

first_position-suc :
    (key : Bytes) (i : ℕ) (rs : List Record)
    → first_position key (suc i) rs ≡ next_position (first_position key i rs)
unfolding first_position
first_position-suc key i [] = refl
first_position-suc key i (r ∷ rs) = ground (arith, first_position-suc key (suc i) rs)

at_position-next :
    (o : Option ℕ) (r : Record) (rs : List Record)
    → at_position (next_position o) (r ∷ rs) ≡ at_position o rs
at_position-next none r rs = refl
at_position-next (some i) r rs = refl

at_position-first_position :
    (key : Bytes) (rs : List Record) → at_position (first_position key 0 rs) rs ≡ first_match key rs
unfolding first_position first_match
at_position-first_position key [] = refl
at_position-first_position key (r ∷ rs) = elim (Bool-cases (bytes_eq (full_record_key r) key)) [
  | inl e ↦ rw e
  | inr e ↦
      rw (e, first_position-suc key 0 rs, at_position-next) (at_position-first_position key rs)
]

-- In a snapshot whose record set is built of a list, a lookup finds the first record of the list with
-- the key, and nothing where there is none.
pub lookup_record-first_match :
    (s : Snapshot) (rs : List Record) (key : Bytes)
    → s.records ≡ some (own_record_set rs)
    → lookup_record s key ≡ first_match key rs
unfolding lookup_record lookup_in own_record_set build_index
lookup_record-first_match s rs key e =
    ap (λ o. lookup_in o key) e
    ∙ ap (λ o. at_position o rs) (find_position-index_from key 0 [] rs)
    ∙ unfold find_position in at_position-first_position key rs
