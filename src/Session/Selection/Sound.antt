-- ===== src/Session/Selection/Sound.antt =====
-- What an accepted selection consists of (internal/session/selection.go).
use shell_picker.Base.{
  ℕ, ◌≡◌, refl, sym, subst, ap, ◌∙◌, true, not, ◌==◌, some, List, [], ◌∷◌, ◌++◌, map, append-nil,
  Bytes, length, Result, ok, err, arith, All, inl, inr, Option-cases, >>=-eq-ok, guard-eq-ok, ◌>>=◌,
}
use mathlib.Core.List.{Perm}
use shell_picker.Protocol.Types.{Outcome}
use shell_picker.Protocol.Record.{WireRecord, RecordError, parse_record}
use shell_picker.Pathutil.Location.{is_nil, relative}
use shell_picker.Candidate.Entry.{Record, wire, Picks}
use shell_picker.Session.State.{Snapshot, Error, invalid_base, invalid_selection, unknown_selection}
use shell_picker.Session.Records.{record_values, lookup_record, own_record_set}
use shell_picker.Session.Records.Lookup.{first_match, lookup_record-first_match}
use shell_picker.Session.Selection.{
  cd_selection_kind, accept, validate_cd, parse_keys, select_paths, validate_cp, add_key, counted,
  select_keys, validate_lines, is_nil_list,
}
use shell_picker.Session.Selection.Picked.{IsPath, select_paths-Selected}

-- What an accepted list of paths means: the picks are records of the snapshot, in its order, all
-- of them places in the file system; the accepted lines are the keys of the picks, each as often
-- as it was picked; the paths are those of the picks relative to the base.
pub record Chosen (base : Bytes) (raws : List Bytes) (rs : List Record) (outcome : Outcome)
    : Type 0 where
  pub keys : List WireRecord
  pub picks : List Record
  pub parsed : parse_keys raws ≡ ok keys
  pub in_order : Picks picks rs
  pub are_paths : All IsPath picks
  pub picked : Perm keys (map wire picks)
  pub outcome_eq : outcome ≡ accept (map (λ r. relative base r.path) picks)

add_key-ok :
    (key : Result RecordError WireRecord) (rest : Result Error (List WireRecord))
    {keys : List WireRecord}
    → add_key key rest ≡ ok keys
    → (k : WireRecord) × (ks : List WireRecord) × (rest ≡ ok ks) × (keys ≡ k ∷ ks)
add_key-ok (err e) rest h = cc
add_key-ok (ok k) (err e) h = cc
add_key-ok (ok k) (ok ks) h = (k, ks, refl, ground arith)

length-parse_keys :
    (raws : List Bytes) {keys : List WireRecord}
    → parse_keys raws ≡ ok keys
    → length keys ≡ length raws
unfolding parse_keys
length-parse_keys [] h = ground arith
length-parse_keys (raw ∷ raws) h =
    let (k, ks, e, e') = add_key-ok (parse_record raw) (parse_keys raws) h in
    ap length e' ∙ ap ℕ.suc (length-parse_keys raws e)

nil_of_length : {A : Type 0} (xs : List A) → length xs ≡ 0 → xs ≡ []
nil_of_length [] h = refl
nil_of_length (x ∷ xs) h = absurd (omega arith)

-- ValidateCP accepts only lines that are the keys of file-system records of the snapshot, one record
-- for each line, and returns the paths of those records relative to the base, in the order of the snapshot.
pub validate_cp-Chosen :
    (snapshot : Snapshot) (raws : List Bytes) (base : Bytes) (outcome : Outcome)
    → validate_cp snapshot raws base ≡ ok outcome
    → Chosen base raws (record_values snapshot) outcome
unfolding validate_cp
validate_cp-Chosen snapshot raws base outcome h =
    let lines =
      (guard-eq-ok (not (is_nil base)) invalid_base (validate_lines snapshot raws base) h).1 in
    let body =
      (guard-eq-ok (not (is_nil_list raws)) invalid_selection
        (parse_keys raws >>= λ keys. select_keys snapshot raws base keys) lines).1 in
    let (keys, parsed, found) =
      >>=-eq-ok (parse_keys raws) (λ keys. select_keys snapshot raws base keys) body in
    let (paths, chosen, counts) =
      >>=-eq-ok (select_paths base keys (record_values snapshot)) (λ paths. counted raws paths)
        found in
    let (same, accepted_paths) =
      guard-eq-ok (length paths == length raws) unknown_selection (ok (accept paths)) counts in
    let s = select_paths-Selected base keys (record_values snapshot) chosen in
    let none_left =
      nil_of_length s.rest (ground (arith, s.sizes, s.selected, length-parse_keys raws parsed)) in
    record {
      keys = keys;
      picks = s.picks;
      parsed = parsed;
      in_order = s.in_order;
      are_paths = s.are_paths;
      picked =
          subst (λ t. Perm keys t)
            (ap (λ t. map wire s.picks ++ t) none_left ∙ append-nil (map wire s.picks)) s.shared;
      outcome_eq = ground (arith, s.relative_paths);
    }

-- ValidateCD accepts just one line, which is the key of a record of the snapshot (the first one
-- with that key) that is a place in the file system and of a kind that may be selected, and returns
-- its path.
pub validate_cd-first_match :
    (snapshot : Snapshot) (rs : List Record) (raws : List Bytes) (outcome : Outcome)
    → snapshot.records ≡ some (own_record_set rs)
    → validate_cd snapshot raws ≡ ok outcome
    → (raw : Bytes) × (r : Record) × (raws ≡ raw ∷ [])
      × (first_match raw rs ≡ some r)
      × IsPath r
      × (cd_selection_kind r.kind ≡ true)
      × (outcome ≡ accept (r.path ∷ []))
unfolding validate_cd
validate_cd-first_match snapshot rs [] outcome owned h = cc
validate_cd-first_match snapshot rs (raw ∷ []) outcome owned h =
    elim (Option-cases (lookup_record snapshot raw)) [
      | inl e ↦ absurd (ground arith)
      | inr (r, e) ↦
          let looked = sym (lookup_record-first_match snapshot rs raw owned) ∙ e in
          (raw, r, refl, looked, (ground arith, ground arith), ground arith, ground arith)
    ]
validate_cd-first_match snapshot rs (raw ∷ b ∷ raws) outcome owned h = cc
