-- ===== src/Session/Resolve.antt =====
-- internal/session/events.go: the records that an event names. `equal_fold` is bytes.EqualFold.
use shell_picker.Base.{
  Bool, true, false, not, ◌&&◌, ◌||◌, if◌then◌else◌, Option, none, some, List, [], ◌∷◌, Bytes,
  bytes_eq, Result, ok, err, ◌>>◌, guard,
}
use shell_picker.Protocol.Types.{Picker, cd, cp, Kind, local, directory, zoxide, drive, virtual}
use shell_picker.Protocol.Record.{parse_record}
use shell_picker.Pathutil.Filepath.{dir, base}
use shell_picker.Pathutil.Location.{LocationKind, drives, Location, is_filesystem, is_nil}
use shell_picker.Candidate.Entry.{Record}
use shell_picker.Session.State.{State, Snapshot, Error, unknown_record, invalid_navigation}
use shell_picker.Session.Records.{record_values, lookup_record}

abbrev pub is_virtual : Kind → Bool
is_virtual virtual = true
is_virtual _ = false

abbrev pub is_drives : LocationKind → Bool
is_drives drives = true
is_drives _ = false

abbrev found : Option Record → Result Error Record
found none = err unknown_record
found (some r) = ok r

abbrev pub parsed {ℓ} : {E : Type 0} {A : Type ℓ} → Result E A → Bool
parsed (ok a) = true
parsed (err e) = false

unfoldable pub resolve_record : Snapshot → Bytes → Result Error Record
resolve_record snapshot raw = do
  guard (parsed (parse_record raw)) unknown_record
  found (lookup_record snapshot raw)

-- Any error of the lookup becomes a navigation error.
abbrev as_navigation : Result Error Record → Result Error Record
as_navigation (ok r) = ok r
as_navigation (err e) = err invalid_navigation

unfoldable pub resolve_navigation_record : Snapshot → Bytes → Result Error Record
resolve_navigation_record snapshot raw = do
  guard (not (is_nil raw)) invalid_navigation
  as_navigation (resolve_record snapshot raw)

unfoldable pub navigation_target : Record → Result Error Location
navigation_target record' =
    if is_virtual record'.kind
    then (if not (is_drives record'.target.kind) || not (is_nil record'.target.path)
        then err invalid_navigation
        else ok record'.target)
    else if not (is_filesystem record'.target.kind)
    then err invalid_navigation
    else ok record'.target

unfoldable pub can_navigate : Picker → Kind → Bool
can_navigate cd local = true
can_navigate cd directory = true
can_navigate cd zoxide = true
can_navigate cd drive = true
can_navigate cd virtual = true
can_navigate cp directory = true
can_navigate cp drive = true
can_navigate cp virtual = true
can_navigate _ _ = false

abbrev is_child_kind : Kind → Bool
is_child_kind local = true
is_child_kind directory = true
is_child_kind _ = false

module _ (equal_fold : Bytes → Bytes → Bool) where
  -- The test of the loop in exactImmediateChild.
  unfoldable pub is_child : State → Bytes → Record → Bool
  unfolding bytes_eq
  is_child state query record' =
      is_child_kind record'.kind
      && is_filesystem record'.target.kind
      && bytes_eq (dir record'.target.path) state.location.path
      && equal_fold (base record'.target.path) query

  unfoldable pub first_child : State → Bytes → List Record → Option Record
  first_child state query [] = none
  first_child state query (r ∷ rs) =
      if is_child state query r then some r else first_child state query rs

  unfoldable pub exact_immediate_child : Snapshot → Bytes → Option Record
  exact_immediate_child snapshot query =
      if not (is_filesystem snapshot.state.location.kind)
      then none
      else first_child snapshot.state query (record_values snapshot)
