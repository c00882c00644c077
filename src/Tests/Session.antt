-- ===== src/Tests/Session.antt =====
-- The reduction of events, the lookup of records, the merge and the selection at concrete inputs.
use shell_picker.Base.{
  ℕ, ◌≡◌, refl, Bool, true, false, some, List, [], ◌∷◌, none, arith, codes, Bytes, leb, bytes_eq,
  ok,
}
use shell_picker.Protocol.Types.{local, cd, normal, Event, parent, Outcome}
use shell_picker.Protocol.Display.Plain.{IsText}
use shell_picker.Protocol.Record.{parse_record}
use shell_picker.Pathutil.Location.{at_path, relative, parent as parent_location}
use shell_picker.Candidate.Entry.{Record, new_record, full_key}
use shell_picker.Candidate.Merge.{merge_new_records}
use shell_picker.Candidate.Merge.Distinct.{Merged, merge_new_records-Merged}
use shell_picker.Candidate.Limits.{LimitWriter, new_limit_writer, write}
use shell_picker.Candidate.Limits.Chunks.{IsBounded}
use shell_picker.Candidate.Limits.Rows.{CountsRows, write-CountsRows}
use shell_picker.Session.State.{State, Snapshot, ProposedTransition, proposes}
use shell_picker.Session.Records.{own_record_set, record_values, lookup_record}
use shell_picker.Session.Records.Lookup.{first_match, lookup_record-first_match}
use shell_picker.Session.Proposal.{mode_prompt, set_navigation}
use shell_picker.Session.Reduce.{start_proposal, reduce, reduce_parent}
use shell_picker.Session.Reduce.Proposes.{IsConsistent, IsSound}
use shell_picker.Session.Reduce.Sound.{reduce-IsSound}
use shell_picker.Session.Selection.{accept, validate_cd, validate_cp, cd_selection_kind}
use shell_picker.Session.Selection.Picked.{IsPath}
use shell_picker.Session.Selection.Sound.{Chosen, validate_cp-Chosen, validate_cd-first_match}
use shell_picker.Session.Selection.{
  count_key, drop_key, parse_keys, select_paths, WireRecord-discrete,
}
use shell_picker.Protocol.Record.{record_bytes, parse_fields, parse_rest, check_wire}
use shell_picker.Protocol.Types.{kind_text, kind_of, valid_kind}
use shell_picker.Protocol.Base64.{encode_path, decode_path, strict_decode}
use shell_picker.Session.Records.{
  lookup_in, build_index, find_position, full_record_key, index_from,
}
use shell_picker.Pathutil.Filepath.{
  clean_parts, fields, is_abs, join, keep_parts, push_part, rel, reversed, strip_common, ups,
}
use shell_picker.Base.{cut, ℕ_discrete}

abbrev printable : ℕ → Bool
printable c = leb 32 c

printable-IsText : (c : ℕ) → printable c ≡ true → IsText c
printable-IsText c h = ground arith

abbrev exact : Bytes → Bytes → Bool
exact a b = bytes_eq a b

abbrev source : Record
source = new_record local (codes "src") (codes "/home/src")

abbrev docs : Record
docs = new_record local (codes "docs") (codes "/home/docs")

abbrev browsing : State
browsing = record {
  picker = cd;
  mode = normal;
  location = at_path (codes "/home");
  home = at_path (codes "/home");
  prompt = codes "[N] ";
  add_error = false;
}

abbrev snapshot : Snapshot
snapshot = record {
  generation = 3;
  state = browsing;
  records = some (own_record_set (source ∷ docs ∷ []));
}

browsing-IsConsistent : IsConsistent browsing
browsing-IsConsistent = record {
  real_mode = (λ e. cc, λ e. cc);
  prompt_eq = unfold mode_prompt in refl;
  error_in_add = λ e. cc;
}

abbrev to_parent : Event
to_parent = record { opcode = parent; key = codes "h"; query = []; current_item = [] }

abbrev moved : ProposedTransition
moved = set_navigation printable (start_proposal snapshot) (at_path (codes "/"))

reduce_parent_run : reduce printable exact snapshot to_parent ≡ ok (proposes moved)
unfolding reduce reduce_parent parent_location
reduce_parent_run = refl

reduce-IsSound_example : IsSound snapshot moved
reduce-IsSound_example =
    reduce-IsSound printable printable-IsText exact snapshot to_parent browsing-IsConsistent
      reduce_parent_run

lookup_record-first_match_example :
    lookup_record snapshot (full_key docs) ≡ first_match (full_key docs) (source ∷ docs ∷ [])
lookup_record-first_match_example =
    lookup_record-first_match snapshot (source ∷ docs ∷ []) (full_key docs) refl

abbrev lines : List Bytes
lines = full_key docs ∷ full_key source ∷ []

abbrev two_paths : Outcome
two_paths = accept (codes "src" ∷ codes "docs" ∷ [])

two_accepted : validate_cp snapshot lines (codes "/home") ≡ ok two_paths
unfolding validate_cp parse_record full_key new_record record_values own_record_set bytes_eq
    relative count_key drop_key parse_keys select_paths WireRecord-discrete record_bytes
    parse_fields parse_rest check_wire kind_text kind_of valid_kind encode_path decode_path
    strict_decode build_index find_position full_record_key index_from clean_parts fields is_abs
    join keep_parts push_part rel reversed strip_common ups cut ℕ_discrete
two_accepted = refl

validate_cp-Chosen_example : Chosen (codes "/home") lines (record_values snapshot) two_paths
validate_cp-Chosen_example =
    validate_cp-Chosen snapshot lines (codes "/home") two_paths two_accepted

one_accepted : validate_cd snapshot (full_key docs ∷ []) ≡ ok (accept (codes "/home/docs" ∷ []))
unfolding validate_cd lookup_record cd_selection_kind parse_record full_key new_record record_values
    own_record_set bytes_eq relative count_key drop_key parse_keys select_paths WireRecord-discrete
    record_bytes parse_fields parse_rest check_wire kind_text kind_of valid_kind encode_path
    decode_path strict_decode build_index find_position full_record_key index_from clean_parts
    fields is_abs join keep_parts push_part rel reversed strip_common ups cut lookup_in
one_accepted = refl

validate_cd-first_match_example :
    (raw : Bytes) × (r : Record) × ((full_key docs ∷ []) ≡ raw ∷ [])
    × (first_match raw (source ∷ docs ∷ []) ≡ some r)
    × IsPath r
    × (cd_selection_kind r.kind ≡ true)
    × (accept (codes "/home/docs" ∷ []) ≡ accept (r.path ∷ []))
validate_cd-first_match_example =
    validate_cd-first_match snapshot (source ∷ docs ∷ []) (full_key docs ∷ [])
      (accept (codes "/home/docs" ∷ [])) refl one_accepted

merge_new_records-Merged_example :
    Merged
      (source ∷ [])
      (docs ∷ source ∷ [])
      (merge_new_records (source ∷ []) (docs ∷ source ∷ [])).0
      (merge_new_records (source ∷ []) (docs ∷ source ∷ [])).1
merge_new_records-Merged_example = merge_new_records-Merged (source ∷ []) (docs ∷ source ∷ [])

-- Three rows of at most four bytes, ten bytes in all.
abbrev small : LimitWriter
small = new_limit_writer 10 3 4

small-IsBounded : IsBounded small
small-IsBounded = record {
  counted = refl;
  bytes_bound = omega arith;
  rows_bound = omega arith;
  row_bound = omega arith;
}

small-CountsRows : CountsRows small
small-CountsRows = λ e. (refl, refl)

write-CountsRows_example :
    IsBounded (write small (codes "/a/b/c") none) × CountsRows (write small (codes "/a/b/c") none)
write-CountsRows_example =
    write-CountsRows small (codes "/a/b/c") none small-IsBounded small-CountsRows
