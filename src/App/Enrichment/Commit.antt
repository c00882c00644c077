-- ===== src/App/Enrichment/Commit.antt =====
-- internal/app/enrichment_commit.go and enrichment_trace.go: the publication of the source's records.
use shell_picker.Base.{
  ℕ, Bool, true, false, if◌then◌else◌, not, ◌||◌, ◌==◌, Option, none, some, List, [], ◌∷◌, is_some,
  Bytes, codes, bytes_eq,
}
use shell_picker.App.Failure.{
  Failure, errors_is, canceled, deadline_exceeded, input_closed_error, join_lifecycle_errors,
}
use shell_picker.App.Enrichment.State.{Enrichment, World, Output, deactivate_locked, finish}

abbrev pub is_empty : Bytes → Bool
is_empty [] = true
is_empty (c ∷ cs) = false

-- `setTraceDecision`: the first decision stays, and only a publication has numbers.
unfoldable pub set_trace_decision : Bytes → ℕ → ℕ → Enrichment → Enrichment
set_trace_decision outcome generation candidates e =
    if not (is_empty e.trace_outcome)
    then e
    else let published = bytes_eq outcome (codes "published") in
      record e {
        trace_outcome = outcome;
        trace_generation = if published then generation else 0;
        trace_candidates = if published then candidates else 0;
      }

-- `setBaseGeneration`.
unfoldable pub set_base_generation : ℕ → Enrichment → Enrichment
set_base_generation generation e =
    if generation == 0 then e else record e { base_generation = generation }

pub data CommitTurn : Type 0 where
  abandoned entered commit_waits : CommitTurn

-- One turn of the loop of `beginCommit`.
unfoldable pub begin_commit : Enrichment → Enrichment × CommitTurn
begin_commit e =
    if not e.active || e.terminal
    then (record e { committing = false }, abandoned)
    else if e.in_flight == 0
    then (record e { committing = true }, entered)
    else (e, commit_waits)

-- `beginCommit` when the source was cancelled by a navigation while it waited.
unfoldable pub abandon_commit : Enrichment → Enrichment
abandon_commit e = record e { committing = false }

-- An end of fzf or of the coordinator, which is no error of the picker.
abbrev pub is_soft : Failure → Bool
is_soft f = errors_is f input_closed_error || errors_is f canceled || errors_is f deadline_exceeded

-- The generation and the number of records of what was published.
abbrev pub Published : Type 0
Published = Option (ℕ × ℕ)

-- The decision that `finishCommit` has traced.
abbrev decision : World → Published → Option Failure → Bytes × ℕ × ℕ
decision w (some (generation, candidates)) terminal = (codes "published", generation, candidates)
decision w none none = (codes "discarded", 0, 0)
decision w none (some f) =
    if is_some w.parent_cause || not (is_soft f)
    then (codes "failed", 0, 0)
    else (codes "discarded", 0, 0)

abbrev published_base : Published → Enrichment → Enrichment
published_base none e = e
published_base (some (generation, candidates)) e = record e { base_generation = generation }

-- The first section of `finishCommit`, which is that of setTraceDecision.
unfoldable pub decide_commit : World → Published → Option Failure → Enrichment → Enrichment
decide_commit w result terminal e =
    let (outcome, generation, candidates) = decision w result terminal in
    set_trace_decision outcome generation candidates e

-- The second section of `finishCommit`.
unfoldable pub finish_commit :
    World → Published → Option Failure → Enrichment → Enrichment × List Output
finish_commit w result terminal e =
    let (f, cause, changed) = deactivate_locked w terminal (published_base result e) in
    let done = record f { committing = false } in
    if changed || is_some cause then finish cause done else (done, [])

-- The error with which `commit` ends when AppendAfter failed.
unfoldable pub append_terminal : World → Failure → Option Failure
append_terminal w f =
    join_lifecycle_errors w.fresh (if is_soft f then none else some f) w.parent_cause
