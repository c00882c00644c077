-- ===== src/Candidate/Limits/Rows.antt =====
-- The rows that the writer of internal/candidate/zoxide_limits.go counts are those of the output that
-- its sink has taken.
use shell_picker.Base.{
  ℕ, ◌+◌, ◌≡◌, refl, sym, ap, ◌∙◌, subst, Bool, true, false, if◌then◌else◌, Option, none, some, [],
  ◌∷◌, ◌++◌, Bytes, length, take, arith, count, count-append, inl, inr, ◌⊎◌, append-nil, Bool-cases,
  ◌==◌,
}
use shell_picker.Candidate.Limits.{
  LimitWriter, LimitError, sink_failed, Scan, scan, write, reject, after_scan, write_unless,
  sink_some, refuse_unless,
}
use shell_picker.Candidate.Limits.Chunks.{IsBounded, write-IsBounded, scan-Within}

-- The bytes behind the last line end, where `n` stood before the text.
abbrev pub open_row : ℕ → Bytes → ℕ
open_row n [] = n
open_row n (c ∷ s) = if c == 10 then open_row 0 s else open_row (n + 1) s

open_row-append : (n : ℕ) (xs ys : Bytes) → open_row n (xs ++ ys) ≡ open_row (open_row n xs) ys
open_row-append n [] ys = refl
open_row-append n (c ∷ xs) ys =
    ground (arith, open_row-append 0 xs ys, open_row-append (n + 1) xs ys)

-- A scan counts the line ends and the open row of the bytes that it lets through.
scan-rows :
    (w : LimitWriter) (total rows row_bytes : ℕ) (batch : Bytes)
    → let s = scan w total rows row_bytes batch in
      (s.rows ≡ rows + count 10 (take s.accepted batch))
      × (s.row_bytes ≡ open_row row_bytes (take s.accepted batch))
unfolding scan
scan-rows w total rows row_bytes [] = (omega arith, refl)
scan-rows w total rows row_bytes (c ∷ cs) = ground (
  arith,
  scan-rows w (total + 1) (rows + 1) 0 cs,
  scan-rows w (total + 1) rows (row_bytes + 1) cs,
)

abbrev pub is_sink_failure : Option LimitError → Bool
is_sink_failure (some (sink_failed e)) = true
is_sink_failure _ = false

-- Unless the sink has failed, the counters are those of the output that it has taken.
abbrev pub CountsRows : LimitWriter → Type 0
CountsRows w =
    is_sink_failure w.err ≡ false → (w.rows ≡ count 10 w.taken) × (w.row_bytes ≡ open_row 0 w.taken)

sink_some-CountsRows :
    (w : LimitWriter) (batch : Bytes) (failure : Option ℕ)
    → w.rows ≡ count 10 (w.taken ++ batch)
    → w.row_bytes ≡ open_row 0 (w.taken ++ batch)
    → CountsRows (sink_some w batch failure)
sink_some-CountsRows w [] failure h k =
    λ e. (h ∙ ap (count 10) (append-nil w.taken), k ∙ ap (open_row 0) (append-nil w.taken))
sink_some-CountsRows w (c ∷ cs) none h k = λ e. (h, k)
sink_some-CountsRows w (c ∷ cs) (some f) h k = λ e. cc

refuse_unless-CountsRows :
    (w : LimitWriter) (e : Option LimitError)
    → w.err ≡ e
    → CountsRows w
    → CountsRows (refuse_unless w e)
refuse_unless-CountsRows w none h v = λ k. v (ap is_sink_failure h)
refuse_unless-CountsRows w (some e) h v = v

take-length : (s : Bytes) → take (length s) s ≡ s
take-length [] = refl
take-length (c ∷ s) = ap (λ t. c ∷ t) (take-length s)

after_scan-CountsRows :
    (w : LimitWriter) (batch : Bytes) (s : Scan) (failure : Option ℕ)
    → (w.rows ≡ count 10 w.taken) × (w.row_bytes ≡ open_row 0 w.taken)
    → (s.rejected ≡ true) ⊎ (s.accepted ≡ length batch)
    → (s.rows ≡ w.rows + count 10 (take s.accepted batch))
      × (s.row_bytes ≡ open_row w.row_bytes (take s.accepted batch))
    → CountsRows (after_scan w batch s failure)
unfolding reject
after_scan-CountsRows w batch s failure (a, b) whole (h, k) =
    let part = take s.accepted batch in
    let counted = record (w) { rows = s.rows; row_bytes = s.row_bytes } in
    let rows_eq : s.rows ≡ count 10 (w.taken ++ part) =
      ground (arith, count-append 10 w.taken part) in
    let open_eq : s.row_bytes ≡ open_row 0 (w.taken ++ part) =
      k ∙ (ap (λ n. open_row n part) b ∙ sym (open_row-append 0 w.taken part)) in
    let sunk = sink_some-CountsRows counted part failure rows_eq open_eq in
    elim (Bool-cases s.rejected) [
      | inl e ↦ rw e (refuse_unless-CountsRows (sink_some counted part failure) _ refl sunk)
      | inr e ↦
          let all : part ≡ batch =
            ap (λ n. take n batch) (ground (arith, whole)) ∙ take-length batch in
          rw e (subst (λ t. CountsRows (sink_some counted t failure)) all sunk)
    ]

write_unless-CountsRows :
    (w : LimitWriter) (batch : Bytes) (failure : Option ℕ) (e : Option LimitError)
    → w.err ≡ e
    → IsBounded w
    → CountsRows w
    → CountsRows (write_unless w batch failure e)
write_unless-CountsRows w batch failure (some e) h v c = c
write_unless-CountsRows w batch failure none h v c =
    after_scan-CountsRows w batch (scan w w.total w.rows w.row_bytes batch) failure
      (c (ap is_sink_failure h))
      (scan-Within w w.total w.rows w.row_bytes batch v.bytes_bound v.rows_bound v.row_bound).whole
      (scan-rows w w.total w.rows w.row_bytes batch)

-- Every write keeps a writer within its limits with true counters, on every branch: a full scan, a
-- rejection in the middle, a failure of the sink, and a writer that has failed before. The total is
-- the length of what the sink has taken and, unless the sink has failed, `rows` is the number of
-- its line ends and `row_bytes` the length of its open row.
pub write-CountsRows :
    (w : LimitWriter) (batch : Bytes) (failure : Option ℕ)
    → IsBounded w
    → CountsRows w
    → IsBounded (write w batch failure) × CountsRows (write w batch failure)
unfolding write
write-CountsRows w batch failure v c =
    (write-IsBounded w batch failure v, write_unless-CountsRows w batch failure w.err refl v c)
