-- ===== src/Candidate/Merge.antt =====
-- internal/candidate/builder.go, MergeRecords and MergeNewRecords, and merge_key*.go as built for
-- Unix.
pub mod Distinct
use shell_picker.Base.{
  Bool, true, false, not, ◌||◌, ◌&&◌, if◌then◌else◌, List, [], ◌∷◌, ◌++◌, Bytes, bytes_eq, any,
}
use shell_picker.Protocol.Types.{Kind, virtual}
use shell_picker.Pathutil.Filepath.{clean}
use shell_picker.Pathutil.Location.{LocationKind, no_location, filesystem, drives, is_filesystem}
use shell_picker.Candidate.Entry.{Record, full_key}

-- The keys of the two maps: `filesystemRecordKey`, or a `virtualRecordKey`.
pub data RecordKey : Type 0 where
  path_key : Bytes → RecordKey
  virtual_key : LocationKind → Bytes → Bytes → RecordKey

abbrev same_kind : LocationKind → LocationKind → Bool
same_kind no_location no_location = true
same_kind filesystem filesystem = true
same_kind drives drives = true
same_kind _ _ = false

unfoldable pub same_key : RecordKey → RecordKey → Bool
same_key (path_key p) (path_key q) = bytes_eq p q
same_key (virtual_key k p w) (virtual_key l q v) = same_kind k l && bytes_eq p q && bytes_eq w v
same_key _ _ = false

abbrev is_virtual_record : Kind → Bool
is_virtual_record virtual = true
is_virtual_record _ = false

-- `filesystemRecordKey`.
unfoldable pub filesystem_record_key : Bytes → Bytes
unfolding clean
filesystem_record_key path = clean path

unfoldable pub key_of : Record → RecordKey
unfolding full_key filesystem_record_key
key_of r =
    if is_virtual_record r.kind || not (is_filesystem r.target.kind)
    then virtual_key r.target.kind r.target.path (full_key r)
    else path_key (filesystem_record_key r.target.path)

-- Whether a key is in one of the maps, which are one list here.
unfoldable pub has_key : RecordKey → List RecordKey → Bool
has_key k [] = false
has_key k (l ∷ ls) = same_key l k || has_key k ls

-- The variables of mergeRecords.
pub record MergeState : Type 0 where
  pub seen : List RecordKey
  pub merged : List Record
  pub admitted : List Record

abbrev pub new_merge : MergeState
new_merge = record { seen = []; merged = []; admitted = [] }

abbrev append_if : Bool → List Record → Record → List Record
append_if true rs r = rs ++ r ∷ []
append_if false rs r = rs

-- `appendRecord`.
unfoldable pub append_record : Bool → MergeState → Record → MergeState
append_record collect st r = if has_key (key_of r) st.seen then st else record {
  seen = key_of r ∷ st.seen;
  merged = st.merged ++ r ∷ [];
  admitted = append_if collect st.admitted r;
}

-- One of the two loops; `collect` is `isAddition && collectAdmitted`.
unfoldable pub append_records : Bool → MergeState → List Record → MergeState
append_records collect st [] = st
append_records collect st (r ∷ rs) = append_records collect (append_record collect st r) rs

-- `mergeRecords`.
unfoldable pub merge_into : List Record → List Record → Bool → MergeState
merge_into base additions collect =
    append_records collect (append_records false new_merge base) additions

-- `MergeRecords`.
unfoldable pub merge_records : List Record → List Record → List Record
merge_records local zoxide = (merge_into local zoxide false).merged

-- `MergeNewRecords`.
unfoldable pub merge_new_records : List Record → List Record → List Record × List Record
merge_new_records base additions =
    let result = merge_into base additions true in (result.merged, result.admitted)
