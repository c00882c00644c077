-- ===== src/Candidate/Limits/Chunks.antt =====
-- How the writer of internal/candidate/zoxide_limits.go counts: within its limits, and the same
-- whatever the chunks.
use shell_picker.Base.{
  ℕ, ◌+◌, ◌≤◌, ◌≡◌, refl, sym, ap, ◌∙◌, Bool, true, false, if◌then◌else◌, Option, none, some, [],
  ◌∷◌, ◌++◌, Bytes, length, take, arith, Option-cases, inr, ◌⊎◌, length-append, length-take,
}
use shell_picker.Candidate.Limits.{
  LimitWriter, LimitError, Scan, scan, write, reject, finalize, after_scan, write_unless,
  finalize_unless, sink_some, refuse_rest,
}

-- A scan from the counters that another one left.
abbrev pub then_scan : LimitWriter → ℕ → Scan → Bytes → Scan
then_scan w total s ys =
    let rest = scan w (total + s.accepted) s.rows s.row_bytes ys in
    if s.rejected then s else record (rest) { accepted = s.accepted + rest.accepted }

shift_zero : (s : Scan) → s ≡ record (s) { accepted = 0 + s.accepted }
shift_zero s = ap (λ n. record (s) { accepted = n }) (omega arith)

-- The limits are applied alike whatever the chunks of the output are: scanning a text and then
-- another one, from the counters that are left, is scanning both at once.
pub scan-append :
    (w : LimitWriter) (total rows row_bytes : ℕ) (xs ys : Bytes)
    → scan w total rows row_bytes (xs ++ ys) ≡ then_scan w total (scan w total rows row_bytes xs) ys
unfolding scan
scan-append w total rows row_bytes [] ys =
    let start : total + 0 ≡ total = omega arith in
    rw start (shift_zero (scan w total rows row_bytes ys))
scan-append w total rows row_bytes (c ∷ xs) ys = ground (
  arith,
  scan-append w (total + 1) (rows + 1) 0 xs ys,
  scan-append w (total + 1) rows (row_bytes + 1) xs ys,
)

-- What a scan keeps of its limits.
pub record Within (w : LimitWriter) (total : ℕ) (batch : Bytes) (s : Scan) : Type 0 where
  pub bytes_bound : total + s.accepted ≤ w.max_bytes
  pub rows_bound : s.rows ≤ w.max_rows
  pub row_bound : s.row_bytes ≤ w.max_row_size
  pub part : s.accepted ≤ length batch
  pub whole : (s.rejected ≡ true) ⊎ (s.accepted ≡ length batch)

pub scan-Within :
    (w : LimitWriter) (total rows row_bytes : ℕ) (batch : Bytes)
    → total ≤ w.max_bytes
    → rows ≤ w.max_rows
    → row_bytes ≤ w.max_row_size
    → Within w total batch (scan w total rows row_bytes batch)
unfolding scan
scan-Within w total rows row_bytes [] h k m = record {
  bytes_bound = omega arith;
  rows_bound = k;
  row_bound = m;
  part = omega arith;
  whole = inr refl;
}
scan-Within w total rows row_bytes (c ∷ cs) h k m = ground (
  arith,
  scan-Within w (total + 1) (rows + 1) 0 cs,
  scan-Within w (total + 1) rows (row_bytes + 1) cs,
)

-- The total is that of the bytes that were taken, and every counter is within its limit.
pub record IsBounded (w : LimitWriter) : Type 0 where
  pub counted : w.total ≡ length w.taken
  pub bytes_bound : w.total ≤ w.max_bytes
  pub rows_bound : w.rows ≤ w.max_rows
  pub row_bound : w.row_bytes ≤ w.max_row_size

sink_some-IsBounded :
    (w : LimitWriter) (batch : Bytes) (failure : Option ℕ)
    → IsBounded w
    → w.total + length batch ≤ w.max_bytes
    → IsBounded (sink_some w batch failure)
sink_some-IsBounded w [] failure v h = v
sink_some-IsBounded w (c ∷ cs) none v h = record {
  counted = ap (λ n. n + length (c ∷ cs)) v.counted ∙ sym (length-append w.taken (c ∷ cs));
  bytes_bound = h;
  rows_bound = v.rows_bound;
  row_bound = v.row_bound;
}
sink_some-IsBounded w (c ∷ cs) (some e) v h = record {
  counted = v.counted;
  bytes_bound = v.bytes_bound;
  rows_bound = v.rows_bound;
  row_bound = v.row_bound;
}

refuse_rest-IsBounded : (w : LimitWriter) → IsBounded w → IsBounded (refuse_rest w)
refuse_rest-IsBounded w v = ground (arith, Option-cases w.err)

if-IsBounded :
    (b : Bool) {x y : LimitWriter}
    → (b ≡ true → IsBounded x)
    → (b ≡ false → IsBounded y)
    → IsBounded (if b then x else y)
if-IsBounded true f g = f refl
if-IsBounded false f g = g refl

after_scan-IsBounded :
    (w : LimitWriter) (batch : Bytes) (s : Scan) (failure : Option ℕ)
    → IsBounded w
    → Within w w.total batch s
    → IsBounded (after_scan w batch s failure)
unfolding reject
after_scan-IsBounded w batch s failure v h =
    let scanned = record (w) { rows = s.rows; row_bytes = s.row_bytes } in
    let bounded : IsBounded scanned = record {
      counted = v.counted;
      bytes_bound = v.bytes_bound;
      rows_bound = h.rows_bound;
      row_bound = h.row_bound;
    } in
    if-IsBounded s.rejected
      (λ e. refuse_rest-IsBounded _ (
        sink_some-IsBounded scanned (take s.accepted batch) failure bounded
          (ground (arith, h.bytes_bound, length-take s.accepted batch h.part))))
      (λ e.
        sink_some-IsBounded scanned batch failure bounded (ground (arith, h.bytes_bound, h.whole)))

write_unless-IsBounded :
    (w : LimitWriter) (batch : Bytes) (failure : Option ℕ) (e : Option LimitError)
    → IsBounded w
    → IsBounded (write_unless w batch failure e)
write_unless-IsBounded w batch failure (some e) v = v
write_unless-IsBounded w batch failure none v =
    after_scan-IsBounded w batch (scan w w.total w.rows w.row_bytes batch) failure v
      (scan-Within w w.total w.rows w.row_bytes batch v.bytes_bound v.rows_bound v.row_bound)

-- Every write keeps the total true and the counters within the limits, on every branch.
pub write-IsBounded :
    (w : LimitWriter) (batch : Bytes) (failure : Option ℕ)
    → IsBounded w
    → IsBounded (write w batch failure)
unfolding write
write-IsBounded w batch failure v = write_unless-IsBounded w batch failure w.err v

finalize_unless-IsBounded :
    (w : LimitWriter) (e : Option LimitError) → IsBounded w → IsBounded (finalize_unless w e)
finalize_unless-IsBounded w (some e) v = v
finalize_unless-IsBounded w none v = ground arith

-- The end of the output, which may count a last row without a line end, keeps the total true and the
-- counters within the limits.
pub finalize-IsBounded : (w : LimitWriter) → IsBounded w → IsBounded (finalize w)
unfolding finalize
finalize-IsBounded w v = finalize_unless-IsBounded w w.err v
