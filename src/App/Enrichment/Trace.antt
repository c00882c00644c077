-- ===== src/App/Enrichment/Trace.antt =====
-- internal/app/enrichment_trace.go: the terminal record of the source in the trace.
pub mod Ended
use shell_picker.Base.{
  ℕ, Bool, true, false, if◌then◌else◌, not, ◌||◌, ◌&&◌, ◌==◌, Option, none, some, List, [], ◌∷◌,
  is_some, Bytes, codes, bytes_eq,
}
use shell_picker.Candidate.Entry.{SourceMetrics}
use shell_picker.App.Failure.{Failure, errors_is, canceled, deadline_exceeded}
use shell_picker.App.Enrichment.State.{Enrichment, World}

abbrev pub one_of : List Bytes → Bytes → Bool
one_of [] s = false
one_of (t ∷ ts) s = bytes_eq s t || one_of ts s

abbrev is_cause : Option Failure → Failure → Bool
is_cause none f = false
is_cause (some cause) f = errors_is f cause

-- The outcome that an error of the source stands for.
unfoldable pub failed_outcome : Option Failure → Option Failure → Bytes → Bytes
failed_outcome parent_cause none outcome = outcome
failed_outcome parent_cause (some f) outcome =
    if is_cause parent_cause f
    then codes "cancelled"
    else if errors_is f deadline_exceeded
    then codes "timeout"
    else if errors_is f canceled
    then codes "cancelled"
    else if one_of ([] ∷ codes "ok" ∷ codes "cached" ∷ []) outcome
    then codes "process-error"
    else outcome

-- What is not the outcome of a source that has ended is an error.
unfoldable pub settled_outcome : Bytes → Bytes
settled_outcome outcome =
    if one_of ([] ∷ codes "pending" ∷ codes "not-run" ∷ []) outcome
    then codes "process-error"
    else outcome

-- `normalizeSourceMetrics`.
unfoldable pub normalize_source_metrics :
    Option Failure → Option Failure → SourceMetrics → SourceMetrics
normalize_source_metrics parent_cause source_err source = record source {
  zoxide_outcome = settled_outcome (failed_outcome parent_cause source_err source.zoxide_outcome);
}

-- `setSourceResult`.
unfoldable pub set_source_result : Bool → SourceMetrics → Option Failure → Enrichment → Enrichment
set_source_result discarded metrics failure e = record e {
  source_discarded = discarded;
  source_metrics = metrics;
  source_err = failure;
}

-- The arguments of traceZoxideEnrichment.
pub record SourceTerminal : Type 0 where
  pub generation : ℕ
  pub lifecycle : Bytes
  pub candidates : ℕ
  pub source : SourceMetrics

-- The lifecycle of a source for which no commit has decided.
abbrev undecided : World → SourceMetrics → Enrichment → Bytes
undecided w source e =
    if is_some w.parent_cause
    then codes "failed"
    else if is_some e.source_err
        && not (one_of (codes "cancelled" ∷ codes "timeout" ∷ []) source.zoxide_outcome)
    then codes "failed"
    else if one_of
        (codes "missing" ∷ codes "process-error" ∷ codes "malformed" ∷ codes "timeout" ∷ [])
        source.zoxide_outcome
    then codes "failed"
    else if bytes_eq source.zoxide_outcome (codes "cancelled") && not e.discard_requested
    then codes "failed"
    else if e.source_discarded && not e.discard_requested
    then codes "failed"
    else codes "discarded"

abbrev lifecycle_of : World → SourceMetrics → Enrichment → Bytes
lifecycle_of w source e =
    if bytes_eq e.trace_outcome [] then undecided w source e else e.trace_outcome

abbrev at_least_one : ℕ → ℕ
at_least_one n = if n == 0 then 1 else n

abbrev pub source_terminal : World → Enrichment → SourceTerminal
source_terminal w e =
    let source = normalize_source_metrics w.parent_cause e.source_err e.source_metrics in
    let lifecycle = lifecycle_of w source e in
    let published = bytes_eq lifecycle (codes "published") in
    record {
      generation = at_least_one (if published then e.trace_generation else e.initial_generation);
      lifecycle = lifecycle;
      candidates = if published then e.trace_candidates else 0;
      source = source;
    }

-- `emitSourceTerminal`: what is traced, once.
unfoldable pub emit_source_terminal : World → Enrichment → Enrichment × Option SourceTerminal
emit_source_terminal w e =
    if e.trace_once then (e, none) else (record e { trace_once = true }, some (source_terminal w e))
