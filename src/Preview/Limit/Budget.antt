-- ===== src/Preview/Limit/Budget.antt =====
-- The writers of a preview stay within their budget (internal/preview/limit.go).
use shell_picker.Base.{
  ℕ, ◌+◌, ◌≤◌, ◌≡◌, Bool, true, false, ltb, if◌then◌else◌, Option, none, some, List, [], ◌∷◌, Bytes,
  take, length, length-take, arith, subst,
}
use shell_picker.Preview.Limit.{
  OutputBudget, BudgetWriter, new_output_budget, new_writer, Destination, Written, write_some,
  write,
}

-- An io.Writer takes no more bytes than it is given.
abbrev pub IsWriter : Destination → Type 0
IsWriter d = (text : Bytes) → (d text).0 ≤ length text

-- The two writers of a preview, its output and its diagnostics, and the calls of `onLimit`.
pub record Run : Type 0 where
  pub budget : OutputBudget
  pub output : BudgetWriter
  pub diagnostics : BudgetWriter
  pub limit_calls : ℕ

abbrev pub new_run : ℕ → Run
new_run maximum = record {
  budget = new_output_budget maximum;
  output = new_writer;
  diagnostics = new_writer;
  limit_calls = 0;
}

abbrev pub to_output : Written → Run → Run
to_output w r = record {
  budget = w.budget;
  output = w.writer;
  diagnostics = r.diagnostics;
  limit_calls = r.limit_calls + w.limit_calls;
}

abbrev pub to_diagnostics : Written → Run → Run
to_diagnostics w r = record {
  budget = w.budget;
  output = r.output;
  diagnostics = w.writer;
  limit_calls = r.limit_calls + w.limit_calls;
}

-- A write to the output or else to the diagnostics.
abbrev pub write_to : Bool → Destination → Bytes → Run → Run
write_to true d text r = to_output (write d text r.budget r.output) r
write_to false d text r = to_diagnostics (write d text r.budget r.diagnostics) r

abbrev pub run : List (Bool × Destination × Bytes) → Run → Run
run [] r = r
run ((which, d, text) ∷ calls) r = run calls (write_to which d text r)

abbrev pub AllWriters : List (Bool × Destination × Bytes) → Type 0
AllWriters [] = Unit
AllWriters ((which, d, text) ∷ calls) = IsWriter d × AllWriters calls

-- What is written and what is left make the maximum, over both writers; the limit is told once, when
-- nothing is left.
pub record IsWithin (maximum : ℕ) (r : Run) : Type 0 where
  pub conserved : r.budget.written + r.budget.remaining ≡ maximum
  pub spent : r.budget.exceeded ≡ true → r.budget.remaining ≡ 0
  pub told : r.limit_calls ≡ (if r.budget.exceeded then 1 else 0)
  pub counted : r.output.written + r.diagnostics.written ≡ r.budget.written

-- What one write does to the budget.
abbrev Spends : OutputBudget → BudgetWriter → Written → Type 0
Spends b w r =
    (r.budget.written + r.budget.remaining ≡ b.written + b.remaining)
    × (r.writer.written + b.written ≡ w.written + r.budget.written)
    × ((b.exceeded ≡ true → b.remaining ≡ 0) → r.budget.exceeded ≡ true → r.budget.remaining ≡ 0)
    × ((if b.exceeded then 1 else 0) + r.limit_calls ≡ (if r.budget.exceeded then 1 else 0))

write_some-Spends :
    (limited : Bool) (allowed : ℕ) (text : Bytes) (b : OutputBudget) (w : BudgetWriter)
    (r : ℕ × Option ℕ)
    → r.0 ≤ allowed
    → allowed ≤ b.remaining
    → (limited ≡ true → allowed ≡ b.remaining)
    → Spends b w (write_some limited allowed text b w r)
write_some-Spends limited allowed text b w (count, some e) h k l = ground arith
write_some-Spends limited allowed text b w (count, none) h k l = ground arith

allowed-length :
    (n : ℕ) (text : Bytes)
    → length (take (if ltb n (length text) then n else length text) text)
      ≡ (if ltb n (length text) then n else length text)
allowed-length n text = length-take _ text (ground arith)

write-Spends :
    (d : Destination) (text : Bytes) (b : OutputBudget) (w : BudgetWriter)
    → IsWriter d
    → Spends b w (write d text b w)
unfolding write
write-Spends d text b w h =
    let allowed = if ltb b.remaining (length text) then b.remaining else length text in
    let taken : (d (take allowed text)).0 ≤ allowed =
      subst (λ n. (d (take allowed text)).0 ≤ n) (allowed-length b.remaining text)
        (h (take allowed text)) in
    ground (
      arith,
      write_some-Spends (ltb b.remaining (length text)) allowed text b w (d (take allowed text))
          taken (ground arith) (λ e. ground arith),
    )

write_to-IsWithin :
    (maximum : ℕ) (which : Bool) (d : Destination) (text : Bytes) (r : Run)
    → IsWriter d
    → IsWithin maximum r
    → IsWithin maximum (write_to which d text r)
write_to-IsWithin maximum true d text r h v =
    ground (arith, write-Spends d text r.budget r.output h)
write_to-IsWithin maximum false d text r h v =
    ground (arith, write-Spends d text r.budget r.diagnostics h)

run-IsWithin :
    (maximum : ℕ) (calls : List (Bool × Destination × Bytes)) (r : Run)
    → AllWriters calls
    → IsWithin maximum r
    → IsWithin maximum (run calls r)
run-IsWithin maximum [] r h v = v
run-IsWithin maximum ((which, d, text) ∷ calls) r h v =
    run-IsWithin maximum calls (write_to which d text r) h.1
      (write_to-IsWithin maximum which d text r h.0 v)

-- Whatever is written to the two writers of a preview, by destinations that take no more than they
-- are given: both together write no more than the maximum, what is left is the rest of it, and the
-- limit is told at most once, and only when nothing is left.
pub run-new_run-IsWithin :
    (maximum : ℕ) (calls : List (Bool × Destination × Bytes))
    → AllWriters calls
    → IsWithin maximum (run calls (new_run maximum))
run-new_run-IsWithin maximum calls h = run-IsWithin maximum calls (new_run maximum) h (ground arith)
