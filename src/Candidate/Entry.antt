-- ===== src/Candidate/Entry.antt =====
-- internal/candidate/record.go and the requests and results of builder.go.
use shell_picker.Base.{ℕ, Bool, [], ◌∷◌, List, Bytes}
use shell_picker.Protocol.Types.{Picker, Kind, virtual, virtual_drives_target}
use shell_picker.Protocol.Base64.{encode_path}
use shell_picker.Protocol.Record.{WireRecord, record_bytes}
use shell_picker.Pathutil.Location.{Location, at_path, at_drives}

pub record Record : Type 0 where
  pub kind : Kind
  pub display : Bytes
  pub path : Bytes
  pub payload : Bytes
  pub target : Location

-- `Record.Wire`.
abbrev pub wire : Record → WireRecord
wire r = record { kind = r.kind; display = r.display; payload = r.payload }

-- `Record.FullKey`.
unfoldable pub full_key : Record → Bytes
unfolding record_bytes
full_key r = record_bytes (wire r)

-- `newRecord` and `newRecordFromString`, which differ only in the type of the path.
unfoldable pub new_record : Kind → Bytes → Bytes → Record
new_record kind display path = record {
  kind = kind;
  display = display;
  path = path;
  payload = encode_path path;
  target = at_path path;
}

unfoldable pub new_virtual_drives_record : Bytes → Record
new_virtual_drives_record display = record {
  kind = virtual;
  display = display;
  path = [];
  payload = encode_path virtual_drives_target;
  target = at_drives;
}

pub record BuildRequest : Type 0 where
  pub generation : ℕ
  pub picker : Picker
  pub location : Location
  pub stat_workers : ℕ
  pub initial : Bool

-- The counters of `SourceMetrics`; its wall-clock durations are left out.
pub record SourceMetrics : Type 0 where
  pub zoxide_outcome : Bytes
  pub zoxide_attempts : ℕ
  pub zoxide_starts : ℕ
  pub zoxide_exits : ℕ
  pub zoxide_processes : ℕ
  pub zoxide_live : ℕ
  pub zoxide_max_live : ℕ

abbrev pub no_metrics : SourceMetrics
no_metrics = record {
  zoxide_outcome = [];
  zoxide_attempts = 0;
  zoxide_starts = 0;
  zoxide_exits = 0;
  zoxide_processes = 0;
  zoxide_live = 0;
  zoxide_max_live = 0;
}

pub record BuildResult : Type 0 where
  pub records : List Record
  pub zoxide_discarded : Bool
  pub metrics : SourceMetrics

-- The picks are some of the records, in their order.
pub data Picks : List Record → List Record → Type 0 where
  done : Picks [] []
  skip : {r : Record} {ps rs : List Record} → Picks ps rs → Picks ps (r ∷ rs)
  pick : {r : Record} {ps rs : List Record} → Picks ps rs → Picks (r ∷ ps) (r ∷ rs)
