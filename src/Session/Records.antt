-- ===== src/Session/Records.antt =====
-- internal/session/record_set.go and the lookups of types.go.
pub mod Lookup
use shell_picker.Base.{
  ℕ, suc, ◌≡◌, Option, none, some, List, [], ◌∷◌, ◌++◌, Bytes, bytes_eq, if◌then◌else◌, get_elem?,
  length,
}
use shell_picker.Protocol.Types.{kind_text}
use shell_picker.Protocol.Record.{tab}
use shell_picker.Candidate.Entry.{Record, wire}
use shell_picker.Session.State.{RecordSet, Snapshot}

unfoldable pub full_record_key : Record → Bytes
full_record_key r =
    kind_text (wire r).kind ++ (tab ∷ ((wire r).display ++ (tab ∷ (wire r).payload)))

-- `map[string]int` as an association list.
unfoldable pub find_position : Bytes → List (Bytes × ℕ) → Option ℕ
find_position key [] = none
find_position key ((k, i) ∷ index) = if bytes_eq k key then some i else find_position key index

abbrev add_missing : Option ℕ → Bytes → ℕ → List (Bytes × ℕ) → List (Bytes × ℕ)
add_missing none key position index = (key, position) ∷ index
add_missing (some i) key position index = index

-- The loop of `buildIndex`: the first position of a key is kept.
unfoldable pub index_from : ℕ → List (Bytes × ℕ) → List Record → List (Bytes × ℕ)
index_from position index [] = index
index_from position index (r ∷ rs) =
    let key = full_record_key r in
    index_from (suc position) (add_missing (find_position key index) key position index) rs

unfoldable pub build_index : List Record → List (Bytes × ℕ)
build_index records = index_from 0 [] records

-- `ownRecordSet`, and `cloneRecordSet` without its copy.
unfoldable pub own_record_set : List Record → RecordSet
own_record_set records = record { values = records; by_full_record = build_index records }

abbrev values_of : Option RecordSet → List Record
values_of none = []
values_of (some set) = set.values

-- `Records` and `recordValues`.
unfoldable pub record_values : Snapshot → List Record
record_values s = values_of s.records

unfoldable pub record_count : Snapshot → ℕ
unfolding record_values
record_count s = length (record_values s)

abbrev at_position : Option ℕ → List Record → Option Record
at_position none values = none
at_position (some i) values = get_elem? values i

unfoldable pub lookup_in : Option RecordSet → Bytes → Option Record
lookup_in none key = none
lookup_in (some set) key = at_position (find_position key set.by_full_record) set.values

-- `lookupRecord`. The source would fault on a position out of range.
unfoldable pub lookup_record : Snapshot → Bytes → Option Record
lookup_record s key = lookup_in s.records key
