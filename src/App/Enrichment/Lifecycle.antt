-- ===== src/App/Enrichment/Lifecycle.antt =====
-- internal/app/enrichment_lifecycle.go: activation, the end of the source, and the stop.
use shell_picker.Base.{
  ℕ, true, if◌then◌else◌, not, ◌&&◌, ◌==◌, Option, none, some, List, [], ◌∷◌, ◌++◌, is_some,
}
use shell_picker.App.Failure.{
  Failure, errors_is, join_lifecycle_errors, canceled, zero_base, already_activated, inactive,
}
use shell_picker.App.Enrichment.State.{
  Enrichment, World, Output, ready, deactivate_locked, cancel_events, finish, drop_pending,
}
use shell_picker.App.Enrichment.Event.{or_canceled}
use shell_picker.App.Enrichment.Load.{Reply}

-- `Stop`.
unfoldable pub stop : World → Option Failure → Enrichment → Reply
stop w cause e =
    let (f, effective, changed) =
      deactivate_locked w cause
        (record e { terminal = true; discard_requested = not (is_some w.parent_cause) }) in
    let (g, out) = finish effective (drop_pending f) in
    (g, effective, cancel_events (some (or_canceled effective)) f.event_cancels ++ out)

abbrev or_inactive : Option Failure → Failure
or_inactive none = inactive
or_inactive (some e) = e

abbrev activate_unless : Option Failure → ℕ → Enrichment → Reply
activate_unless (some cause) generation e = (e, some cause, [])
activate_unless none generation e = (
  record e { activated = true; initial_generation = generation; base_generation = generation },
  none,
  ready ∷ [],
)

-- `Activate`.
unfoldable pub activate : World → ℕ → Enrichment → Reply
activate w generation e =
    if generation == 0
    then (e, some zero_base, [])
    else if e.activated
    then (e, some already_activated, [])
    else if not e.active
    then (e, some (or_inactive e.terminal_err), [])
    else activate_unless w.parent_cause generation e

-- `finishSource`.
unfoldable pub finish_source : World → Option Failure → Enrichment → Enrichment × List Output
finish_source w failure e =
    let (f, cause, changed) = deactivate_locked w failure e in
    if changed then finish cause f else (f, [])

-- `retainInterruptedSourceError`.
unfoldable pub retain_interrupted_source_error :
    World → Option Failure → Enrichment → Enrichment × List Output
retain_interrupted_source_error w none e = (e, [])
retain_interrupted_source_error w (some failure) e =
    if errors_is failure canceled && not (is_some w.parent_cause)
    then (e, [])
    else finish_source w (some failure) e

-- `Wait`, once the source goroutine is done.
unfoldable pub wait : World → Enrichment → Reply
wait w e =
    if e.terminal_finalized
    then (e, e.terminal_err, [])
    else let joined' = join_lifecycle_errors w.fresh e.terminal_err w.parent_cause in
      (record e { terminal_err = joined'; terminal_finalized = true }, joined', [])
