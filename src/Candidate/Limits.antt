-- ===== src/Candidate/Limits.antt =====
-- internal/candidate/zoxide_limits.go: the writer that bounds what zoxide prints.
pub mod Chunks
pub mod Rows
use shell_picker.Base.{
  ℕ, ◌+◌, ◌*◌, Bool, true, false, ◌==◌, ◌||◌, leb, if◌then◌else◌, Option, none, some, List, [], ◌∷◌,
  ◌++◌, Bytes, length, take,
}

-- `MaxZoxideOutputBytes`, `MaxZoxideRows` and `MaxZoxideRowBytes`.
abbrev pub max_zoxide_output_bytes : ℕ
max_zoxide_output_bytes = 4 * 1024 * 1024

abbrev pub max_zoxide_rows : ℕ
max_zoxide_rows = 1000000

abbrev pub max_zoxide_row_bytes : ℕ
max_zoxide_row_bytes = 128 * 1024

pub data LimitError : Type 0 where
  output_limit : LimitError
  sink_failed : ℕ → LimitError

-- `zoxideLimitWriter`, with the bytes of the writes that its sink took whole; `cancelled` says whether its cancel
-- function was called.
pub record LimitWriter : Type 0 where
  pub taken : Bytes
  pub cancelled : Bool
  pub max_bytes : ℕ
  pub max_rows : ℕ
  pub max_row_size : ℕ
  pub total : ℕ
  pub rows : ℕ
  pub row_bytes : ℕ
  pub err : Option LimitError

-- `newZoxideLimitWriter`.
abbrev pub new_limit_writer : ℕ → ℕ → ℕ → LimitWriter
new_limit_writer max_bytes max_rows max_row_size = record {
  taken = [];
  cancelled = false;
  max_bytes = max_bytes;
  max_rows = max_rows;
  max_row_size = max_row_size;
  total = 0;
  rows = 0;
  row_bytes = 0;
  err = none;
}

-- What the loop over the bytes leaves: how many it let through, its counters, and whether it
-- stopped at a limit.
pub record Scan : Type 0 where
  pub accepted : ℕ
  pub rows : ℕ
  pub row_bytes : ℕ
  pub rejected : Bool

abbrev stop : ℕ → ℕ → Scan
stop rows row_bytes = record { accepted = 0; rows = rows; row_bytes = row_bytes; rejected = true }

abbrev one_more : Scan → Scan
one_more s = record (s) { accepted = ℕ.suc s.accepted }

-- The loop; `total` is `writer.total+index`.
unfoldable pub scan : LimitWriter → ℕ → ℕ → ℕ → Bytes → Scan
scan w total rows row_bytes [] = record {
  accepted = 0;
  rows = rows;
  row_bytes = row_bytes;
  rejected = false;
}
scan w total rows row_bytes (c ∷ cs) =
    let next_row = one_more (scan w (total + 1) (rows + 1) 0 cs) in
    let same_row = one_more (scan w (total + 1) rows (row_bytes + 1) cs) in
    if leb w.max_bytes total
    then stop rows row_bytes
    else if c == 10
    then if leb w.max_rows rows then stop rows row_bytes else next_row
    else if leb w.max_rows rows || leb w.max_row_size row_bytes
    then stop rows row_bytes
    else same_row

abbrev is_nil_bytes : Bytes → Bool
is_nil_bytes [] = true
is_nil_bytes (c ∷ cs) = false

-- `writeSink` and the sum after it; the argument is the sink's error, `none` where it took all.
abbrev sink_data : LimitWriter → Bytes → Option ℕ → LimitWriter
sink_data w batch none = record (w) { taken = w.taken ++ batch; total = w.total + length batch }
sink_data w batch (some e) = record (w) { err = some (sink_failed e) }

abbrev refuse_unless : LimitWriter → Option LimitError → LimitWriter
refuse_unless w none = record (w) { err = some output_limit; cancelled = true }
refuse_unless w (some e) = w

abbrev refuse_rest : LimitWriter → LimitWriter
refuse_rest w = refuse_unless w w.err

abbrev sink_some : LimitWriter → Bytes → Option ℕ → LimitWriter
sink_some w [] failure = w
sink_some w (c ∷ cs) failure = sink_data w (c ∷ cs) failure

-- `reject`.
unfoldable pub reject : LimitWriter → Bytes → ℕ → Option ℕ → LimitWriter
reject w batch accepted failure = refuse_rest (sink_some w (take accepted batch) failure)

abbrev after_scan : LimitWriter → Bytes → Scan → Option ℕ → LimitWriter
after_scan w batch s failure =
    let counted = record (w) { rows = s.rows; row_bytes = s.row_bytes } in
    if s.rejected then reject counted batch s.accepted failure else sink_some counted batch failure

abbrev write_unless : LimitWriter → Bytes → Option ℕ → Option LimitError → LimitWriter
write_unless w batch failure (some e) = w
write_unless w batch failure none =
    after_scan w batch (scan w w.total w.rows w.row_bytes batch) failure

-- `Write`.
unfoldable pub write : LimitWriter → Bytes → Option ℕ → LimitWriter
unfolding scan reject
write w batch failure = write_unless w batch failure w.err

abbrev finalize_unless : LimitWriter → Option LimitError → LimitWriter
finalize_unless w (some e) = w
finalize_unless w none =
    if w.row_bytes == 0
    then w
    else if leb w.max_rows w.rows
    then record (w) { err = some output_limit; cancelled = true }
    else record (w) { rows = w.rows + 1 }

-- `finalize`.
unfoldable pub finalize : LimitWriter → LimitWriter
finalize w = finalize_unless w w.err
