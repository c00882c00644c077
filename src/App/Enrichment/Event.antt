-- ===== src/App/Enrichment/Event.antt =====
-- internal/app/enrichment_event.go and enrichment_callback.go: how an event reserves the gate and
-- what its result does.
use shell_picker.Base.{
  ℕ, ◌+◌, ◌-◌, Bool, true, false, if◌then◌else◌, not, ◌||◌, ◌&&◌, ◌==◌, Option, none, some, List,
  [], ◌∷◌, is_some,
}
use shell_picker.Protocol.Types.{Event, Opcode, restore_view, Effect}
use shell_picker.Session.Actor.State.{TransitionResult, max_uint64}
use shell_picker.App.Failure.{Failure, canceled}
use shell_picker.App.Enrichment.State.{
  Enrichment, PendingEvent, World, Output, deactivate_locked, cancel_events, remove_id, has_id,
  remove,
}

-- What `reserveEvent` finds when it holds the gate: an error, an event ID, or that it has to wait.
pub data Reservation : Type 0 where
  refused : Failure → Reservation
  reserved : ℕ → Reservation
  must_wait : Reservation

abbrev pub or_canceled : Option Failure → Failure
or_canceled none = canceled
or_canceled (some e) = e

-- One turn of the loop of `reserveEvent`.
unfoldable pub reserve_event : World → Enrichment → Enrichment × Reservation
reserve_event w e =
    if e.terminal
    then (e, refused (or_canceled e.terminal_err))
    else if e.committing || not (e.in_flight == 0)
    then (e, must_wait)
    else if e.next_event_id == max_uint64
    then (e, refused (Failure.plain w.fresh))
    else let id = e.next_event_id + 1 in
      (
        record e {
          next_event_id = id;
          event_cancels = id ∷ e.event_cancels;
          in_flight = e.in_flight + 1;
        },
        reserved id,
      )

abbrev is_restore : Opcode → Bool
is_restore restore_view = true
is_restore _ = false

-- The generation that a load has to copy: the reload's, or else the restore's.
abbrev effect_generation : Effect → ℕ
effect_generation f = if f.reload_generation == 0 then f.restore_generation else f.reload_generation

abbrev is_restored : Event → Effect → Bool
is_restored event f = is_restore event.opcode && not (f.restore_generation == 0)

abbrev pub new_pending : Event → Effect → PendingEvent
new_pending event f = record {
  generation = effect_generation f;
  close_input = not (f.reload_generation == 0) || is_restored event f || f.invalid_path;
  finalized = false;
  applied = false;
  load_requested = false;
}

-- What `resolveEvent` returns: the coordinator, the cause, whether to stop the source, and the
-- events that it cancels.
abbrev pub Resolved : Type 0
Resolved = Enrichment × Option Failure × Bool × List Output

-- A result that accepts or aborts ends the session.
abbrev resolve_terminal : World → Enrichment → Resolved
resolve_terminal w e =
    let (f, cause, changed) =
      deactivate_locked w none (record e { terminal = true; discard_requested = true }) in
    (f, cause, true, cancel_events (some (or_canceled cause)) f.event_cancels)

abbrev discard : World → Enrichment → Resolved
discard w e =
    let (f, cause, changed) = deactivate_locked w none (record e { discard_requested = true }) in
    (f, cause, changed, [])

-- A new view replaces what the source would have added to.
unfoldable pub resolve_effect : World → Event → TransitionResult → Enrichment → Resolved
resolve_effect w event result e =
    let f = result.effect in
    if f.accept || f.abort
    then resolve_terminal w e
    else if (is_restored event f || f.invalid_path) && e.active
    then discard w e
    else if not (f.reload_generation == 0) && e.active
    then discard w (record e {
      base_generation =
          if result.snapshot.generation == 0 then e.base_generation else result.snapshot.generation;
    })
    else (e, none, false, [])

-- `resolveEvent`; `failure` is the error of the event.
unfoldable pub resolve_event :
    World → Event → ℕ → TransitionResult → Option Failure → Enrichment → Resolved
resolve_event w event id result failure e =
    let rest = record e { event_cancels = remove_id id e.event_cancels } in
    if not (has_id id e.event_cancels)
    then (e, none, false, [])
    else if is_some failure || e.terminal
    then (
      record rest { in_flight = e.in_flight - 1 },
      (if is_some failure then none else e.terminal_err),
      false,
      [],
    )
    else resolve_effect w event result (record rest {
      pending_events = (id, new_pending event result.effect) ∷ remove id e.pending_events;
    })

-- `suppressActiveRestore`: while the source may still publish, a change of mode restores no view.
unfoldable pub suppress_active_restore : Enrichment → Event → TransitionResult → TransitionResult
suppress_active_restore e event result =
    let f = result.effect in
    if is_restore event.opcode
      || f.restore_generation == 0
      || not (f.reload_generation == 0)
      || f.accept
      || f.abort
      || not e.active
    then result
    else record result { effect = record f { restore_generation = 0 } }
