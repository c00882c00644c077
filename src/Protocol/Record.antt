-- ===== src/Protocol/Record.antt =====
-- internal/protocol/codec.go: candidate records on the wire and their NUL-terminated frames.
pub mod RoundTrip
pub mod Frames
use shell_picker.Base.{
  ℕ, ◌≡◌, Bool, true, false, not, ◌==◌, if◌then◌else◌, Option, none, some, List, [], ◌∷◌, ◌++◌, map,
  Bytes, bytes_eq, count, cut, length, Result, ok, err, guard, ◌>>=◌, ◌>>◌,
}
use shell_picker.Protocol.Types.{
  Kind, virtual, other_kind, kind_text, kind_of, valid_kind, virtual_drives_target,
}
use shell_picker.Protocol.Base64.{encode_path, decode_path}

pub record WireRecord : Type 0 where
  pub kind : Kind
  pub display : Bytes
  pub payload : Bytes

abbrev pub tab : ℕ
tab = 9

pub data RecordError : Type 0 where
  has_nul bad_tabs invalid_kind bad_payload not_canonical invalid_virtual : RecordError

-- `WireRecord.Bytes`.
unfoldable pub record_bytes : WireRecord → Bytes
record_bytes r = kind_text r.kind ++ (tab ∷ (r.display ++ (tab ∷ r.payload)))

-- `appendRecord`.
unfoldable pub append_record : Bytes → WireRecord → Bytes
append_record dst r =
    (((dst ++ kind_text r.kind) ++ (tab ∷ [])) ++ r.display ++ (tab ∷ [])) ++ r.payload

abbrev is_virtual : Kind → Bool
is_virtual virtual = true
is_virtual _ = false

abbrev or_fail : Option Bytes → RecordError → Result RecordError Bytes
or_fail none e = err e
or_fail (some p) e = ok p

-- What ParseRecord checks once the text is split.
unfoldable pub check_wire : WireRecord → Result RecordError WireRecord
check_wire w = do
  guard (valid_kind w.kind) invalid_kind
  path ← or_fail (decode_path w.payload) bad_payload
  guard (bytes_eq (encode_path path) w.payload) not_canonical
  guard (if is_virtual w.kind then bytes_eq path virtual_drives_target else true) invalid_virtual
  ok w

-- The fields left and right of the second tab.
unfoldable pub parse_rest : Bytes → Option (Bytes × Bytes) → Result RecordError WireRecord
parse_rest kind none = err bad_tabs
parse_rest kind (some (display, payload)) =
    check_wire (record { kind = kind_of kind; display = display; payload = payload })

unfoldable pub parse_fields : Option (Bytes × Bytes) → Result RecordError WireRecord
parse_fields none = err bad_tabs
parse_fields (some (kind, rest)) = parse_rest kind (cut tab rest)

unfoldable pub parse_record : Bytes → Result RecordError WireRecord
parse_record r =
    if not (count 0 r == 0)
    then err has_nul
    else if not (count tab r == 2)
    then err bad_tabs
    else parse_fields (cut tab r)

-- `FrameRecords`.
frame_from : Bytes → List WireRecord → Bytes
frame_from framed [] = framed
frame_from framed (r ∷ rs) = frame_from (append_record framed r ++ (0 ∷ [])) rs

unfoldable pub frame_records : List WireRecord → Bytes
unfolding frame_from append_record
frame_records rs = frame_from [] rs
