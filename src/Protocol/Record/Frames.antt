-- ===== src/Protocol/Record/Frames.antt =====
-- Frames of records (internal/protocol/codec.go, FrameRecords and WriteFramedRecords).
use shell_picker.Base.{◌≡◌, ◌∙◌, sym, List, [], ◌∷◌, ◌++◌, Bytes, append_assoc, append-nil}
use shell_picker.Protocol.Record.{
  WireRecord, record_bytes, append_record, frame_from, frame_records,
}

-- The frames of the texts, each ended by a NUL.
unfoldable pub frames : List Bytes → Bytes
frames [] = []
frames (t ∷ ts) = t ++ (0 ∷ frames ts)

pub record_texts : List WireRecord → List Bytes
record_texts [] = []
record_texts (r ∷ rs) = record_bytes r ∷ record_texts rs

append_record_lem : (dst : Bytes) (r : WireRecord) → append_record dst r ≡ dst ++ record_bytes r
unfolding append_record record_bytes
append_record_lem dst r = simp append_assoc

frame_from_lem :
    (dst : Bytes) (rs : List WireRecord) → frame_from dst rs ≡ dst ++ frames (record_texts rs)
unfolding frame_from frames record_texts
frame_from_lem dst [] = sym (append-nil dst)
frame_from_lem dst (r ∷ rs) =
    frame_from_lem (append_record dst r ++ (0 ∷ [])) rs
    ∙ rw (append_record_lem dst r) (simp append_assoc)

-- FrameRecords builds the frames of the records' texts, in order.
pub frame_records_lem : (rs : List WireRecord) → frame_records rs ≡ frames (record_texts rs)
unfolding frame_records
frame_records_lem rs = frame_from_lem [] rs
