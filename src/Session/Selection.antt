-- ===== src/Session/Selection.antt =====
-- internal/session/selection.go: the records that fzf accepted, checked against the snapshot.
pub mod Picked
pub mod Sound
use shell_picker.Base.{
  ℕ, Bool, true, false, not, ◌||◌, ◌==◌, if◌then◌else◌, Option, none, some, List, [], ◌∷◌, Bytes,
  Bytes-discrete, ℕ_discrete, ite, length, Result, ok, err, ◌>>=◌, ◌>>◌, guard, is_ok,
}
use shell_picker.Protocol.Types.{Kind, local, directory, zoxide, drive, Outcome, Status, accepted}
use shell_picker.Protocol.Record.{WireRecord, RecordError, parse_record}
use shell_picker.Pathutil.Location.{is_filesystem, is_nil, relative}
use shell_picker.Candidate.Entry.{Record, wire}
use shell_picker.Session.State.{Snapshot, Error, invalid_selection, unknown_selection, invalid_base}
use shell_picker.Session.Records.{record_values, lookup_record}
use shell_picker.Session.Resolve.{is_virtual}

unfoldable pub cd_selection_kind : Kind → Bool
cd_selection_kind local = true
cd_selection_kind directory = true
cd_selection_kind zoxide = true
cd_selection_kind drive = true
cd_selection_kind _ = false

abbrev pub known : Option Record → Result Error Record
known none = err unknown_selection
known (some r) = ok r

abbrev pub accept : List Bytes → Outcome
accept paths = record { status = accepted; paths = paths }

abbrev validate_one : Snapshot → Bytes → Result Error Outcome
validate_one snapshot raw = do
  guard (is_ok (parse_record raw)) invalid_selection
  r ← known (lookup_record snapshot raw)
  guard
      (not
        (is_virtual r.kind || not (is_filesystem r.target.kind) || not (cd_selection_kind r.kind)))
      invalid_selection
  ok (accept (r.path ∷ []))

-- `ValidateCD`: just one record is accepted.
unfoldable pub validate_cd : Snapshot → List Bytes → Result Error Outcome
unfolding cd_selection_kind
validate_cd snapshot (raw ∷ []) = validate_one snapshot raw
validate_cd snapshot _ = err invalid_selection

unfoldable pub WireRecord-discrete : Discrete WireRecord
WireRecord-discrete = hlevel ℕ_discrete

abbrev add_key :
    Result RecordError WireRecord → Result Error (List WireRecord) → Result Error (List WireRecord)
add_key (err e) keys = err invalid_selection
add_key (ok key) (err e) = err e
add_key (ok key) (ok keys) = ok (key ∷ keys)

-- The map of counts of ValidateCP is the list of its keys, each as often as its count.
unfoldable pub parse_keys : List Bytes → Result Error (List WireRecord)
parse_keys [] = ok []
parse_keys (raw ∷ raws) = add_key (parse_record raw) (parse_keys raws)

-- `counts[key]`.
unfoldable pub count_key : WireRecord → List WireRecord → ℕ
count_key key [] = 0
count_key key (k ∷ ks) =
    ite (WireRecord-discrete k key) (ℕ.suc (count_key key ks)) (count_key key ks)

-- `counts[key]--`.
unfoldable pub drop_key : WireRecord → List WireRecord → List WireRecord
drop_key key [] = []
drop_key key (k ∷ ks) = ite (WireRecord-discrete k key) ks (k ∷ drop_key key ks)

abbrev prepend_path : Bytes → Result Error (List Bytes) → Result Error (List Bytes)
prepend_path p (err e) = err e
prepend_path p (ok ps) = ok (p ∷ ps)

-- The loop over the records of the snapshot.
unfoldable pub select_paths : Bytes → List WireRecord → List Record → Result Error (List Bytes)
select_paths base keys [] = ok []
select_paths base keys (r ∷ rs) = elim (count_key (wire r) keys == 0) [
  | true ↦ select_paths base keys rs
  | false ↦ elim (is_virtual r.kind || not (is_filesystem r.target.kind)) [
    | true ↦ err invalid_selection
    | false ↦ prepend_path (relative base r.path) (select_paths base (drop_key (wire r) keys) rs)
  ]
]

abbrev is_nil_list : List Bytes → Bool
is_nil_list [] = true
is_nil_list (x ∷ xs) = false

abbrev counted : List Bytes → List Bytes → Result Error Outcome
counted raws paths = do guard (length paths == length raws) unknown_selection; ok (accept paths)

abbrev select_keys : Snapshot → List Bytes → Bytes → List WireRecord → Result Error Outcome
select_keys snapshot raws base keys =
    select_paths base keys (record_values snapshot) >>= λ paths. counted raws paths

abbrev validate_lines : Snapshot → List Bytes → Bytes → Result Error Outcome
validate_lines snapshot raws base = do
  guard (not (is_nil_list raws)) invalid_selection
  parse_keys raws >>= λ keys. select_keys snapshot raws base keys

-- `ValidateCP`.
unfoldable pub validate_cp : Snapshot → List Bytes → Bytes → Result Error Outcome
validate_cp snapshot raws base = do
  guard (not (is_nil base)) invalid_base
  validate_lines snapshot raws base
