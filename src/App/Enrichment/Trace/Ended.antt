-- ===== src/App/Enrichment/Trace/Ended.antt =====
-- What internal/app/enrichment_trace.go tells of a source that has ended.
use shell_picker.Base.{
  ◌≤◌, ◌≡◌, refl, Bool, true, false, Option, none, some, List, [], ◌∷◌, Bytes, codes, bytes_eq,
  arith, if◌then◌else◌, is_some,
}
use shell_picker.App.Failure.{Failure}
use shell_picker.App.Enrichment.State.{Enrichment, World}
use shell_picker.App.Enrichment.Trace.{
  one_of, failed_outcome, settled_outcome, normalize_source_metrics, SourceTerminal,
  emit_source_terminal,
}

abbrev pub unsettled : List Bytes
unsettled = [] ∷ codes "pending" ∷ codes "not-run" ∷ []

abbrev pub successes : List Bytes
successes = codes "ok" ∷ codes "cached" ∷ []

chosen :
    (P : Bytes → Type 0) (b : Bool) {x y : Bytes}
    → (b ≡ true → P x)
    → (b ≡ false → P y)
    → P (if b then x else y)
chosen P true h k = h refl
chosen P false h k = k refl

-- An outcome of a source that has ended, and no success unless `before` is one.
abbrev IsSettledFrom : Bytes → Bytes → Type 0
IsSettledFrom before after =
    (one_of unsettled after ≡ false)
    × (one_of successes before ≡ false → one_of successes after ≡ false)

settled_outcome_lem : (outcome : Bytes) → IsSettledFrom outcome (settled_outcome outcome)
unfolding settled_outcome bytes_eq
settled_outcome_lem outcome =
    chosen (IsSettledFrom outcome) (one_of unsettled outcome) (λ e. (refl, λ h. refl))
      (λ e. (e, λ h. h))

failed_outcome_lem :
    (cause : Option Failure) (f : Failure) (outcome : Bytes)
    → one_of successes (failed_outcome cause (some f) outcome) ≡ false
unfolding failed_outcome bytes_eq
failed_outcome_lem cause f outcome = ground arith

outcome-IsSettled :
    (cause failure : Option Failure) (outcome : Bytes)
    → let after = settled_outcome (failed_outcome cause failure outcome) in
      (one_of unsettled after ≡ false) × (is_some failure ≡ true → one_of successes after ≡ false)
outcome-IsSettled cause none outcome = ((settled_outcome_lem _).0, λ h. cc)
outcome-IsSettled cause (some f) outcome =
    let s = settled_outcome_lem (failed_outcome cause (some f) outcome) in
    (s.0, λ h. s.1 (failed_outcome_lem cause f outcome))

-- What is traced of the source is a record of one that has ended: its outcome is neither empty nor
-- pending, no success after an error, its generation is not 0, and it counts candidates only
-- if they were published.
pub emit_source_terminal-IsEnded :
    (w : World) (e : Enrichment) (t : SourceTerminal)
    → (emit_source_terminal w e).1 ≡ some t
    → (one_of unsettled t.source.zoxide_outcome ≡ false)
      × (is_some e.source_err ≡ true → one_of successes t.source.zoxide_outcome ≡ false)
      × (1 ≤ t.generation)
      × (bytes_eq t.lifecycle (codes "published") ≡ false → t.candidates ≡ 0)
unfolding emit_source_terminal normalize_source_metrics
emit_source_terminal-IsEnded w e t h =
    ground (arith, outcome-IsSettled w.parent_cause e.source_err e.source_metrics.zoxide_outcome)
