-- ===== src/App/Enrichment/Issued.antt =====
-- Every event ID in the maps of internal/app/enrichment.go has been given out.
use shell_picker.Base.{
  ℕ, ◌≡◌, ◌≤◌, ◌+◌, refl, inl, inr, true, ◌==◌, if◌then◌else◌, Option, some, List, [], ◌∷◌, arith,
  length, Option-cases,
}
use shell_picker.Protocol.Types.{Event}
use shell_picker.Session.Actor.State.{TransitionResult}
use shell_picker.Sessionipc.Dto.{EventFinalizeRequest, LoadFinalizeRequest, LoadRequest}
use shell_picker.App.Failure.{Failure}
use shell_picker.App.Enrichment.State.{
  Enrichment, PendingEvent, World, lookup, has_id, deactivate_locked, finish, cancel_source,
  new_enrichment,
}
use shell_picker.App.Enrichment.Event.{reserve_event, resolve_event}
use shell_picker.App.Enrichment.Load.{
  finalize_event, begin_load, finalize_load, fail_callback_application, update,
}
use shell_picker.App.Enrichment.Lifecycle.{
  stop, activate, finish_source, retain_interrupted_source_error, wait,
}
use shell_picker.App.Enrichment.Commit.{
  set_base_generation, begin_commit, abandon_commit, Published, decide_commit, finish_commit,
  set_trace_decision,
}
use shell_picker.App.Enrichment.Trace.{set_source_result, emit_source_terminal}
use shell_picker.App.Enrichment.Run.{
  Call, reserve, resolve, acknowledge, load, loaded, application_failed, stopped, activated_at,
  source_result, source_finished, source_interrupted, source_stopped, awaited, based_on,
  commit_begun, commit_abandoned, commit_decided, commit_finished, traced, step,
}
use shell_picker.App.Enrichment.Keeps.{
  decide_commit-Keeps, Keeps, resolve_event-cases, finish_source-Keeps, rest-Keeps,
  interrupted-Keeps,
}
use shell_picker.App.Enrichment.Serial.{IsSerial, length-remove_id, length-remove, remove-nil}

-- The event IDs of the maps have been given out.
abbrev pub Below : ℕ → List (ℕ × PendingEvent) → Type 0
Below n [] = Unit
Below n ((k, p) ∷ ps) = (k ≤ n) × Below n ps

abbrev pub IdsBelow : ℕ → List ℕ → Type 0
IdsBelow n [] = Unit
IdsBelow n (k ∷ ks) = (k ≤ n) × IdsBelow n ks

abbrev pub IsIssued : Enrichment → Type 0
IsIssued e = IdsBelow e.next_event_id e.event_cancels × Below e.next_event_id e.pending_events

pub lookup-Below :
    (n id : ℕ) (ps : List (ℕ × PendingEvent)) {p : PendingEvent}
    → Below n ps
    → lookup id ps ≡ some p
    → id ≤ n
lookup-Below n id [] h k = cc
lookup-Below n id ((j, q) ∷ ps) {p} h k = ground (arith, lookup-Below n id ps {p = p})

pub has_id-IdsBelow : (n id : ℕ) (ks : List ℕ) → IdsBelow n ks → has_id id ks ≡ true → id ≤ n
has_id-IdsBelow n id [] h k = cc
has_id-IdsBelow n id (j ∷ ks) h k = ground (arith, has_id-IdsBelow n id ks)

pub length-has_id : (id : ℕ) (ks : List ℕ) → has_id id ks ≡ true → 1 ≤ length ks
length-has_id id [] h = cc
length-has_id id (k ∷ ks) h = omega arith

pub update-Below :
    (n id : ℕ) (p : PendingEvent) (ps : List (ℕ × PendingEvent))
    → Below n ps
    → Below n (update id p ps)
update-Below n id p [] h = tt
update-Below n id p ((j, q) ∷ ps) h = ground (arith, update-Below n id p ps)

pub lookup-update :
    (k id : ℕ) (p : PendingEvent) (ps : List (ℕ × PendingEvent)) {q : PendingEvent}
    → lookup id ps ≡ some q
    → lookup k (update id p ps) ≡ (if id == k then some p else lookup k ps)
lookup-update k id p [] h = cc
lookup-update k id p ((j, r) ∷ ps) {q} h = ground (arith, lookup-update k id p ps {q = q})

pub Issued-succ :
    (n : ℕ) (ks : List ℕ) (ps : List (ℕ × PendingEvent))
    → IdsBelow n ks
    → Below n ps
    → IdsBelow (n + 1) ks × Below (n + 1) ps
Issued-succ n [] [] h k = (tt, tt)
Issued-succ n (j ∷ ks) ps h k = ground (arith, Issued-succ n ks ps)
Issued-succ n [] ((j, p) ∷ ps) h k = ground (arith, Issued-succ n [] ps)

pub reserve_event-IsIssued :
    (w : World) (e : Enrichment) → IsIssued e → IsIssued (reserve_event w e).0
unfolding reserve_event
reserve_event-IsIssued w e v =
    ground (arith, Issued-succ e.next_event_id e.event_cancels e.pending_events)

pub resolve_event-IsIssued :
    (w : World) (event : Event) (id : ℕ) (result : TransitionResult) (failure : Option Failure)
    (e : Enrichment)
    → IsSerial e
    → IsIssued e
    → IsIssued (resolve_event w event id result failure e).0
resolve_event-IsIssued w event id result failure e v i = ground (
  arith,
  resolve_event-cases w event id result failure e,
  length-remove_id id e.event_cancels,
  remove-nil id e.pending_events,
  has_id-IdsBelow e.next_event_id id e.event_cancels,
)

pub fail_callback_application-IsIssued :
    (w : World) (e : Enrichment) → IsIssued e → IsIssued (fail_callback_application w e).0
unfolding fail_callback_application deactivate_locked finish cancel_source
fail_callback_application-IsIssued w e i = ground arith

pub stop-IsIssued :
    (w : World) (cause : Option Failure) (e : Enrichment) → IsIssued e → IsIssued (stop w cause e).0
unfolding stop deactivate_locked finish cancel_source
stop-IsIssued w cause e i = ground arith

pub finalize_event-IsIssued :
    (r : EventFinalizeRequest) (e : Enrichment)
    → IsSerial e
    → IsIssued e
    → IsIssued (finalize_event r e).0
unfolding finalize_event
finalize_event-IsIssued r e v i = elim (Option-cases (lookup r.event_id e.pending_events)) [
  | inl missing ↦ ground arith
  | inr (p, found) ↦ ground (
    arith,
    length-remove r.event_id e.pending_events found,
    update-Below e.next_event_id r.event_id (record p { finalized = true; applied = true })
        e.pending_events,
  )
]

pub begin_load-IsIssued :
    (r : LoadRequest) (e : Enrichment) → IsIssued e → IsIssued (begin_load r e).0
unfolding begin_load
begin_load-IsIssued r e i = elim (Option-cases (lookup r.event_id e.pending_events)) [
  | inl missing ↦ ground arith
  | inr (p, found) ↦ ground (
    arith,
    update-Below e.next_event_id r.event_id (record p { load_requested = true }) e.pending_events,
  )
]

pub finalize_load-IsIssued :
    (r : LoadFinalizeRequest) (e : Enrichment)
    → IsSerial e
    → IsIssued e
    → IsIssued (finalize_load r e).0
unfolding finalize_load
finalize_load-IsIssued r e v i = elim (Option-cases (lookup r.event_id e.pending_events)) [
  | inl missing ↦ ground arith
  | inr (p, found) ↦ ground (arith, length-remove r.event_id e.pending_events found)
]

pub Keeps-IsIssued : (e f : Enrichment) → Keeps e f → IsIssued e → IsIssued f
Keeps-IsIssued e f (a, b, c, d, n) v = ground arith

-- Equal maps, whoever holds the gate.
abbrev pub SameMaps : Enrichment → Enrichment → Type 0
SameMaps e f =
    (f.event_cancels ≡ e.event_cancels)
    × (f.pending_events ≡ e.pending_events)
    × (f.next_event_id ≡ e.next_event_id)

SameMaps-IsIssued : (e f : Enrichment) → SameMaps e f → IsIssued e → IsIssued f
SameMaps-IsIssued e f (a, b, n) i = ground arith

pub begin_commit-maps : (e : Enrichment) → SameMaps e (begin_commit e).0
unfolding begin_commit
begin_commit-maps e = ground arith

pub finish_commit-maps :
    (w : World) (result : Published) (terminal : Option Failure) (e : Enrichment)
    → SameMaps e (finish_commit w result terminal e).0
unfolding finish_commit finish cancel_source deactivate_locked set_trace_decision
finish_commit-maps w result terminal e = ground arith

pub step-IsIssued :
    (w : World) (c : Call) (e : Enrichment) → IsSerial e → IsIssued e → IsIssued (step w c e)
unfolding step set_source_result abandon_commit
step-IsIssued w reserve e v i = reserve_event-IsIssued w e i
step-IsIssued w (resolve event k result failure) e v i =
    resolve_event-IsIssued w event k result failure e v i
step-IsIssued w (acknowledge r) e v i = finalize_event-IsIssued r e v i
step-IsIssued w (load r) e v i = begin_load-IsIssued r e i
step-IsIssued w (loaded r) e v i = finalize_load-IsIssued r e v i
step-IsIssued w application_failed e v i = fail_callback_application-IsIssued w e i
step-IsIssued w (stopped cause) e v i = stop-IsIssued w cause e i
step-IsIssued w (activated_at n) e v i =
    Keeps-IsIssued e (activate w n e).0 ((rest-Keeps w e).1 n) i
step-IsIssued w (source_result d m f) e v i =
    Keeps-IsIssued e (set_source_result d m f e) ((refl, refl, refl, refl, refl)) i
step-IsIssued w (source_finished f) e v i =
    Keeps-IsIssued e (finish_source w f e).0 (finish_source-Keeps w f e) i
step-IsIssued w (source_interrupted f) e v i =
    Keeps-IsIssued e (retain_interrupted_source_error w f e).0 (interrupted-Keeps w f e) i
step-IsIssued w (source_stopped cause) e v i =
    Keeps-IsIssued e (cancel_source cause e).0 ((rest-Keeps w e).0 cause) i
step-IsIssued w awaited e v i = Keeps-IsIssued e (wait w e).0 ((rest-Keeps w e).3) i
step-IsIssued w (based_on n) e v i =
    Keeps-IsIssued e (set_base_generation n e) ((rest-Keeps w e).2 n) i
step-IsIssued w commit_begun e v i = SameMaps-IsIssued e (begin_commit e).0 (begin_commit-maps e) i
step-IsIssued w commit_abandoned e v i = SameMaps-IsIssued e (abandon_commit e) (refl, refl, refl) i
step-IsIssued w (commit_decided result terminal) e v i =
    Keeps-IsIssued e (decide_commit w result terminal e) (decide_commit-Keeps w result terminal e) i
step-IsIssued w (commit_finished result terminal) e v i =
    SameMaps-IsIssued e (finish_commit w result terminal e).0
      (finish_commit-maps w result terminal e) i
step-IsIssued w traced e v i = Keeps-IsIssued e (emit_source_terminal w e).0 ((rest-Keeps w e).4) i

pub new_enrichment-IsIssued : IsIssued new_enrichment
unfolding new_enrichment
new_enrichment-IsIssued = (tt, tt)
