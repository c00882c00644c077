-- ===== src/App/Enrichment/Serial.antt =====
-- One event at a time, and none beside a commit (internal/app/enrichment*.go).
use shell_picker.Base.{
  ℕ, ◌+◌, ◌≡◌, ◌≤◌, inl, inr, refl, true, Option, some, List, [], ◌∷◌, length, arith, Option-cases,
}
use shell_picker.Protocol.Types.{Event}
use shell_picker.Session.Actor.State.{TransitionResult, max_uint64}
use shell_picker.Sessionipc.Dto.{EventFinalizeRequest, LoadFinalizeRequest, LoadRequest}
use shell_picker.App.Failure.{Failure}
use shell_picker.App.Enrichment.State.{
  Enrichment, PendingEvent, World, new_enrichment, cancel_source, finish, deactivate_locked, lookup,
  remove, remove_id, has_id,
}
use shell_picker.App.Enrichment.Event.{reserve_event, resolve_event}
use shell_picker.App.Enrichment.Load.{
  finalize_event, begin_load, finalize_load, fail_callback_application, update,
}
use shell_picker.App.Enrichment.Lifecycle.{stop}
use shell_picker.App.Enrichment.Commit.{
  begin_commit, abandon_commit, Published, finish_commit, set_trace_decision,
}
use shell_picker.App.Enrichment.Trace.{set_source_result}
use shell_picker.App.Enrichment.Run.{
  Call, reserve, resolve, acknowledge, load, loaded, application_failed, stopped, activated_at,
  source_result, source_finished, source_interrupted, source_stopped, awaited, based_on,
  commit_begun, commit_abandoned, commit_decided, commit_finished, traced, step, run,
}
use shell_picker.App.Enrichment.Keeps.{
  decide_commit-Keeps, Keeps, resolve_event-cases, finish_source-Keeps, rest-Keeps,
  interrupted-Keeps,
}

-- `in_flight` counts the reservations, of which there is at most one, and none during a commit.
pub record IsSerial (e : Enrichment) : Type 0 where
  pub counted : length e.event_cancels + length e.pending_events ≡ e.in_flight
  pub single : e.in_flight ≤ 1
  pub exclusive : e.committing ≡ true → e.in_flight ≡ 0
  pub next_le : e.next_event_id ≤ max_uint64

pub length-remove_id :
    (id : ℕ) (ids : List ℕ)
    → has_id id ids ≡ true
    → length ids ≤ 1
    → (length ids ≡ 1) × (remove_id id ids ≡ [])
length-remove_id id [] h k = cc
length-remove_id id (x ∷ []) h k = ground arith
length-remove_id id (x ∷ y ∷ ys) h k = absurd (omega arith)

pub length-remove :
    (id : ℕ) (xs : List (ℕ × PendingEvent)) {p : PendingEvent}
    → lookup id xs ≡ some p
    → length xs ≤ 1
    → (length xs ≡ 1) × (remove id xs ≡ [])
length-remove id [] h k = cc
length-remove id ((x, q) ∷ []) h k = ground arith
length-remove id (x ∷ y ∷ ys) h k = absurd (omega arith)

pub remove-nil : (id : ℕ) (xs : List (ℕ × PendingEvent)) → length xs ≡ 0 → remove id xs ≡ []
remove-nil id [] h = refl
remove-nil id (x ∷ xs) h = absurd (omega arith)

pub length-update :
    (id : ℕ) (p : PendingEvent) (xs : List (ℕ × PendingEvent)) → length (update id p xs) ≡ length xs
length-update id p [] = refl
length-update id p ((k, q) ∷ xs) = ground (arith, length-update id p xs)

reserve_event-IsSerial : (w : World) (e : Enrichment) → IsSerial e → IsSerial (reserve_event w e).0
unfolding reserve_event
reserve_event-IsSerial w e v = ground arith

-- A step that keeps the reservations keeps their order.
pub Keeps-IsSerial : (e f : Enrichment) → Keeps e f → IsSerial e → IsSerial f
Keeps-IsSerial e f (a, b, c, d, n) v = ground arith

resolve_event-IsSerial :
    (w : World) (event : Event) (id : ℕ) (result : TransitionResult) (failure : Option Failure)
    (e : Enrichment)
    → IsSerial e
    → IsSerial (resolve_event w event id result failure e).0
resolve_event-IsSerial w event id result failure e v = ground (
  arith,
  resolve_event-cases w event id result failure e,
  length-remove_id id e.event_cancels,
  remove-nil id e.pending_events,
)

fail_callback_application-IsSerial :
    (w : World) (e : Enrichment) → IsSerial e → IsSerial (fail_callback_application w e).0
unfolding fail_callback_application deactivate_locked finish cancel_source
fail_callback_application-IsSerial w e v = ground arith

stop-IsSerial :
    (w : World) (cause : Option Failure) (e : Enrichment) → IsSerial e → IsSerial (stop w cause e).0
unfolding stop deactivate_locked finish cancel_source
stop-IsSerial w cause e v = ground arith

finalize_event-IsSerial :
    (r : EventFinalizeRequest) (e : Enrichment) → IsSerial e → IsSerial (finalize_event r e).0
unfolding finalize_event
finalize_event-IsSerial r e v = elim (Option-cases (lookup r.event_id e.pending_events)) [
  | inl missing ↦ ground arith
  | inr (p, found) ↦ ground (
    arith,
    length-remove r.event_id e.pending_events found,
    length-update r.event_id (record p { finalized = true; applied = true }) e.pending_events,
  )
]

begin_load-IsSerial : (r : LoadRequest) (e : Enrichment) → IsSerial e → IsSerial (begin_load r e).0
unfolding begin_load
begin_load-IsSerial r e v = elim (Option-cases (lookup r.event_id e.pending_events)) [
  | inl missing ↦ ground arith
  | inr (p, found) ↦
      ground (arith, length-update r.event_id (record p { load_requested = true }) e.pending_events)
]

finalize_load-IsSerial :
    (r : LoadFinalizeRequest) (e : Enrichment) → IsSerial e → IsSerial (finalize_load r e).0
unfolding finalize_load
finalize_load-IsSerial r e v = elim (Option-cases (lookup r.event_id e.pending_events)) [
  | inl missing ↦ ground arith
  | inr (p, found) ↦ ground (arith, length-remove r.event_id e.pending_events found)
]

begin_commit-IsSerial : (e : Enrichment) → IsSerial e → IsSerial (begin_commit e).0
unfolding begin_commit
begin_commit-IsSerial e v = ground arith

finish_commit-IsSerial :
    (w : World) (result : Published) (terminal : Option Failure) (e : Enrichment)
    → IsSerial e
    → IsSerial (finish_commit w result terminal e).0
unfolding finish_commit finish cancel_source deactivate_locked set_trace_decision
finish_commit-IsSerial w result terminal e v = ground arith

pub step-IsSerial : (w : World) (c : Call) (e : Enrichment) → IsSerial e → IsSerial (step w c e)
unfolding step set_source_result abandon_commit
step-IsSerial w reserve e v = reserve_event-IsSerial w e v
step-IsSerial w (resolve event id result failure) e v =
    resolve_event-IsSerial w event id result failure e v
step-IsSerial w (acknowledge r) e v = finalize_event-IsSerial r e v
step-IsSerial w (load r) e v = begin_load-IsSerial r e v
step-IsSerial w (loaded r) e v = finalize_load-IsSerial r e v
step-IsSerial w application_failed e v = fail_callback_application-IsSerial w e v
step-IsSerial w (stopped cause) e v = stop-IsSerial w cause e v
step-IsSerial w (activated_at n) e v = Keeps-IsSerial e _ ((rest-Keeps w e).1 n) v
step-IsSerial w (source_result d m f) e v = Keeps-IsSerial e _ (refl, refl, refl, refl, refl) v
step-IsSerial w (source_finished f) e v = Keeps-IsSerial e _ (finish_source-Keeps w f e) v
step-IsSerial w (source_interrupted f) e v = Keeps-IsSerial e _ (interrupted-Keeps w f e) v
step-IsSerial w (source_stopped cause) e v = Keeps-IsSerial e _ ((rest-Keeps w e).0 cause) v
step-IsSerial w awaited e v = Keeps-IsSerial e _ (rest-Keeps w e).3 v
step-IsSerial w (based_on n) e v = Keeps-IsSerial e _ ((rest-Keeps w e).2 n) v
step-IsSerial w commit_begun e v = begin_commit-IsSerial e v
step-IsSerial w commit_abandoned e v = ground arith
step-IsSerial w (commit_decided result terminal) e v =
    Keeps-IsSerial e _ (decide_commit-Keeps w result terminal e) v
step-IsSerial w (commit_finished result terminal) e v = finish_commit-IsSerial w result terminal e v
step-IsSerial w traced e v = Keeps-IsSerial e _ (rest-Keeps w e).4 v

run-IsSerial : (cs : List (World × Call)) (e : Enrichment) → IsSerial e → IsSerial (run cs e)
unfolding run
run-IsSerial [] e v = v
run-IsSerial ((w, c) ∷ cs) e v = run-IsSerial cs (step w c e) (step-IsSerial w c e v)

pub new_enrichment-IsSerial : IsSerial new_enrichment
unfolding new_enrichment
new_enrichment-IsSerial = ground arith

-- After any steps of a new coordinator, at most one event holds the gate, `inFlight` counts the
-- events that are handled and those that wait for their action or load, and a commit holds the gate
-- alone.
pub run-new_enrichment-IsSerial : (cs : List (World × Call)) → IsSerial (run cs new_enrichment)
run-new_enrichment-IsSerial cs = run-IsSerial cs new_enrichment new_enrichment-IsSerial
