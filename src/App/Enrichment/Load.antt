-- ===== src/App/Enrichment/Load.antt =====
-- internal/app/enrichment_callback.go: the acknowledgement of an event's action, and the load of
-- the generation that it names.
use shell_picker.Base.{
  ℕ, ◌-◌, Bool, true, if◌then◌else◌, not, ◌&&◌, ◌==◌, Option, none, some, List, [], ◌∷◌, ◌++◌,
}
use shell_picker.Sessionipc.Dto.{EventFinalizeRequest, LoadFinalizeRequest, LoadRequest}
use shell_picker.App.Failure.{Failure, invalid_load, callback_application_failed}
use shell_picker.App.Enrichment.State.{
  Enrichment, PendingEvent, World, Output, input_closed, deactivate_locked, cancel_events, finish,
  lookup, remove, drop_pending,
}

-- A step that returns an error or nil.
abbrev pub Reply : Type 0
Reply = Enrichment × Option Failure × List Output

-- `failCallbackApplication`.
unfoldable pub fail_callback_application : World → Enrichment → Reply
fail_callback_application w e =
    let (f, effective, changed) =
      deactivate_locked w (some callback_application_failed)
        (record e { terminal = true; discard_requested = true }) in
    let (g, out) = finish effective (drop_pending f) in
    (g, effective, cancel_events effective f.event_cancels ++ out)

-- How a section that finalizes ends: its caller returns, or it gives the gate back and goes on with
-- `failCallbackApplication`, which takes the gate again.
pub data Ended : Type 0 where
  returned : Option Failure → Ended
  goes_on_failing : Ended

abbrev pub Finalized : Type 0
Finalized = Enrichment × Ended × List Output

-- The entry of an event gets new contents; the map holds pointers.
abbrev pub update : ℕ → PendingEvent → List (ℕ × PendingEvent) → List (ℕ × PendingEvent)
update id p [] = []
update id p ((k, q) ∷ xs) = if k == id then (k, p) ∷ xs else (k, q) ∷ update id p xs

abbrev pub release : ℕ → Enrichment → Enrichment
release id e = record e { pending_events = remove id e.pending_events; in_flight = e.in_flight - 1 }

abbrev closed_if : Bool → List Output
closed_if close = if close then input_closed none ∷ [] else []

abbrev finalize_pending : EventFinalizeRequest → Enrichment → Option PendingEvent → Finalized
finalize_pending r e none = (e, returned none, [])
finalize_pending r e (some p) =
    if p.finalized
    then (e, returned none, [])
    else if not r.applied
    then (e, goes_on_failing, [])
    else (
      (if p.generation == 0 then release r.event_id e else record e {
        pending_events =
            update r.event_id (record p { finalized = true; applied = true }) e.pending_events;
      }),
      returned none,
      closed_if p.close_input,
    )

-- The section of `FinalizeEvent`.
unfoldable pub finalize_event : EventFinalizeRequest → Enrichment → Finalized
finalize_event r e = finalize_pending r e (lookup r.event_id e.pending_events)

-- The request names a reservation with its generation, which no load has used.
abbrev pub may_load : LoadRequest → PendingEvent → Bool
may_load r p =
    not (r.event_id == 0)
    && not (r.generation == 0)
    && p.generation == r.generation
    && not p.load_requested

abbrev pub is_applied : PendingEvent → Bool
is_applied p = p.finalized && p.applied

abbrev begin_pending : LoadRequest → Enrichment → Option PendingEvent → Enrichment × Option Failure
begin_pending r e none = (e, some invalid_load)
begin_pending r e (some p) =
    if may_load r p && is_applied p
    then (
      record e {
        pending_events = update r.event_id (record p { load_requested = true }) e.pending_events;
      },
      none,
    )
    else (e, some invalid_load)

-- `BeginLoad` with `validateLoadLocked`.
unfoldable pub begin_load : LoadRequest → Enrichment → Enrichment × Option Failure
begin_load r e = begin_pending r e (lookup r.event_id e.pending_events)

pub data LoadCheck : Type 0 where
  load_refused load_valid load_waits : LoadCheck

abbrev validate_pending : LoadRequest → Option PendingEvent → LoadCheck
validate_pending r none = load_refused
validate_pending r (some p) =
    if not (may_load r p) then load_refused else if is_applied p then load_valid else load_waits

-- One turn of the loop of `ValidateLoad`.
unfoldable pub validate_load : LoadRequest → Enrichment → LoadCheck
validate_load r e = validate_pending r (lookup r.event_id e.pending_events)

abbrev finalize_load_pending : LoadFinalizeRequest → Enrichment → Option PendingEvent → Finalized
finalize_load_pending r e none = (e, returned (some invalid_load), [])
finalize_load_pending r e (some p) =
    if not (is_applied p)
    then (e, returned (some invalid_load), [])
    else if not r.applied
    then (e, goes_on_failing, [])
    else if not p.load_requested
    then (e, returned (some invalid_load), [])
    else (release r.event_id e, returned none, closed_if p.close_input)

-- The section of `FinalizeLoad`.
unfoldable pub finalize_load : LoadFinalizeRequest → Enrichment → Finalized
finalize_load r e = finalize_load_pending r e (lookup r.event_id e.pending_events)
