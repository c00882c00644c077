-- ===== src/App/Enrichment/Loads.antt =====
-- Each reservation of internal/app/enrichment_callback.go is loaded at most once.
use shell_picker.Base.{
  ℕ, ◌≡◌, ◌≤◌, ◌+◌, ◌-◌, refl, inl, inr, true, ◌||◌, ◌==◌, ltb, if◌then◌else◌, Option, none, some,
  List, [], ◌∷◌, arith, Option-cases,
}
use shell_picker.Protocol.Types.{Event}
use shell_picker.Session.Actor.State.{TransitionResult}
use shell_picker.Sessionipc.Dto.{EventFinalizeRequest, LoadFinalizeRequest, LoadRequest}
use shell_picker.App.Failure.{Failure}
use shell_picker.App.Enrichment.State.{
  Enrichment, PendingEvent, World, lookup, remove_id, remove, has_id, deactivate_locked, finish,
  cancel_source, new_enrichment,
}
use shell_picker.App.Enrichment.Event.{reserve_event, resolve_event, new_pending}
use shell_picker.App.Enrichment.Load.{
  finalize_event, begin_load, finalize_load, fail_callback_application,
}
use shell_picker.App.Enrichment.Lifecycle.{
  stop, activate, finish_source, retain_interrupted_source_error, wait,
}
use shell_picker.App.Enrichment.Commit.{
  set_base_generation, begin_commit, abandon_commit, decide_commit, finish_commit,
}
use shell_picker.App.Enrichment.Trace.{set_source_result, emit_source_terminal}
use shell_picker.App.Enrichment.Run.{
  Call, reserve, resolve, acknowledge, load, loaded, application_failed, stopped, activated_at,
  source_result, source_finished, source_interrupted, source_stopped, awaited, based_on,
  commit_begun, commit_abandoned, commit_decided, commit_finished, traced, step,
}
use shell_picker.App.Enrichment.Keeps.{
  decide_commit-Keeps, Keeps, resolve_event-cases, finish_source-Keeps, rest-Keeps,
  interrupted-Keeps,
}
use shell_picker.App.Enrichment.Serial.{
  IsSerial, step-IsSerial, new_enrichment-IsSerial, length-remove_id, length-remove,
}
use shell_picker.App.Enrichment.Issued.{
  IsIssued, lookup-Below, lookup-update, length-has_id, SameMaps, begin_commit-maps,
  finish_commit-maps, step-IsIssued, new_enrichment-IsIssued,
}

module _ (id : ℕ) where
  abbrev unused : PendingEvent → ℕ
  unused p = if p.load_requested then 0 else 1

  abbrev credit_by : Enrichment → Option PendingEvent → ℕ
  credit_by e none = if has_id id e.event_cancels || ltb e.next_event_id id then 1 else 0
  credit_by e (some p) = unused p

  -- 1 if a load of the event may still be accepted, now or later.
  abbrev credit : Enrichment → ℕ
  credit e = credit_by e (lookup id e.pending_events)

  abbrev answered : Option Failure → ℕ
  answered none = 1
  answered (some f) = 0

  -- 1 if the call is a load of the event and is accepted.
  abbrev accepts : Call → Enrichment → ℕ
  accepts (load r) e = if r.event_id == id then answered (begin_load r e).1 else 0
  accepts _ e = 0

  -- The loads of the event that are accepted.
  abbrev pub accepted_loads : List (World × Call) → Enrichment → ℕ
  accepted_loads [] e = 0
  accepted_loads ((w, c) ∷ cs) e = accepts c e + accepted_loads cs (step w c e)

  Keeps-credit : (e f : Enrichment) → Keeps e f → credit f ≡ credit e
  Keeps-credit e f (a, b, c, d, n) = ground arith

  reserve_event-credit : (w : World) (e : Enrichment) → credit (reserve_event w e).0 ≤ credit e
  unfolding reserve_event
  reserve_event-credit w e = ground arith

  abbrev outside : Enrichment → ℕ
  outside e = if has_id id e.event_cancels || ltb e.next_event_id id then 1 else 0

  -- A reservation that is dropped, or ends, cannot be loaded again.
  outside-credit : (e : Enrichment) → IsSerial e → IsIssued e → outside e ≤ credit e
  outside-credit e v i = elim (Option-cases (lookup id e.pending_events)) [
    | inl missing ↦ ground arith
    | inr (p, found) ↦ ground (
      arith,
      length-remove id e.pending_events found,
      length-has_id id e.event_cancels,
      lookup-Below e.next_event_id id e.pending_events {p = p},
    )
  ]

  -- An event that starts to wait was handled: it could be loaded before.
  added-credit :
      (e : Enrichment) (k : ℕ) (p : PendingEvent) (ps : List (ℕ × PendingEvent))
      → IsSerial e
      → has_id k e.event_cancels ≡ true
      → e.pending_events ≡ ps
      → credit (record e {
        event_cancels = remove_id k e.event_cancels;
        pending_events = (k, p) ∷ remove k ps;
      })
        ≤ credit_by e (lookup id ps)
  added-credit e k p [] v known same = ground (arith, length-remove_id k e.event_cancels known)
  added-credit e k p (x ∷ xs) v known same =
      absurd (ground (arith, length-has_id k e.event_cancels))

  resolve_event-credit :
      (w : World) (event : Event) (k : ℕ) (result : TransitionResult) (failure : Option Failure)
      (e : Enrichment)
      → IsSerial e
      → IsIssued e
      → credit (resolve_event w event k result failure e).0 ≤ credit e
  resolve_event-credit w event k result failure e v i =
      let f = (resolve_event w event k result failure e).0 in
      let ended = record e { event_cancels = remove_id k e.event_cancels } in
      elim (resolve_event-cases w event k result failure e) [
        | inl kept ↦ ground (arith, Keeps-credit e f kept)
        | inr (known, inl kept) ↦ ground (
          arith,
          Keeps-credit (record ended { in_flight = e.in_flight - 1 }) f kept,
          length-remove_id k e.event_cancels known,
        )
        | inr (known, inr kept) ↦ ground (
          arith,
          Keeps-credit
              (record ended {
                pending_events = (k, new_pending event result.effect) ∷ remove k e.pending_events;
              })
              f kept,
          added-credit e k (new_pending event result.effect) e.pending_events v known refl,
        )
      ]

  fail_callback_application-credit :
      (w : World) (e : Enrichment)
      → IsSerial e
      → IsIssued e
      → credit (fail_callback_application w e).0 ≤ credit e
  unfolding fail_callback_application deactivate_locked finish cancel_source
  fail_callback_application-credit w e v i = ground (arith, outside-credit e v i)

  stop-credit :
      (w : World) (cause : Option Failure) (e : Enrichment)
      → IsSerial e
      → IsIssued e
      → credit (stop w cause e).0 ≤ credit e
  unfolding stop deactivate_locked finish cancel_source
  stop-credit w cause e v i = ground (arith, outside-credit e v i)

  finalize_event-credit :
      (r : EventFinalizeRequest) (e : Enrichment)
      → IsSerial e
      → IsIssued e
      → credit (finalize_event r e).0 ≤ credit e
  unfolding finalize_event
  finalize_event-credit r e v i = elim (Option-cases (lookup r.event_id e.pending_events)) [
    | inl missing ↦ ground arith
    | inr (p, found) ↦ ground (
      arith,
      length-remove r.event_id e.pending_events found,
      outside-credit e,
      lookup-update id r.event_id (record p { finalized = true; applied = true }) e.pending_events
          found,
    )
  ]

  finalize_load-credit :
      (r : LoadFinalizeRequest) (e : Enrichment)
      → IsSerial e
      → IsIssued e
      → credit (finalize_load r e).0 ≤ credit e
  unfolding finalize_load
  finalize_load-credit r e v i = elim (Option-cases (lookup r.event_id e.pending_events)) [
    | inl missing ↦ ground arith
    | inr (p, found) ↦
        ground (arith, length-remove r.event_id e.pending_events found, outside-credit e)
  ]

  begin_load-credit :
      (r : LoadRequest) (e : Enrichment) → accepts (load r) e + credit (begin_load r e).0 ≤ credit e
  unfolding begin_load
  begin_load-credit r e = elim (Option-cases (lookup r.event_id e.pending_events)) [
    | inl missing ↦ ground arith
    | inr (p, found) ↦ ground (
      arith,
      lookup-update id r.event_id (record p { load_requested = true }) e.pending_events found,
    )
  ]

SameMaps-credit : (id : ℕ) (e f : Enrichment) → SameMaps e f → credit id f ≤ credit id e
SameMaps-credit id e f (a, b, n) = ground arith

Keeps-credit_le : (id : ℕ) (e f : Enrichment) → Keeps e f → credit id f ≤ credit id e
Keeps-credit_le id e f k = ground (arith, Keeps-credit id e f k)

none_accepted : {n m : ℕ} → n ≤ m → 0 + n ≤ m
none_accepted h = omega arith

step-credit :
    (id : ℕ) (w : World) (c : Call) (e : Enrichment)
    → IsSerial e
    → IsIssued e
    → accepts id c e + credit id (step w c e) ≤ credit id e
unfolding step set_source_result abandon_commit
step-credit id w reserve e v i = none_accepted (reserve_event-credit id w e)
step-credit id w (resolve event k result failure) e v i =
    none_accepted (resolve_event-credit id w event k result failure e v i)
step-credit id w (acknowledge r) e v i = none_accepted (finalize_event-credit id r e v i)
step-credit id w (load r) e v i = begin_load-credit id r e
step-credit id w (loaded r) e v i = none_accepted (finalize_load-credit id r e v i)
step-credit id w application_failed e v i =
    none_accepted (fail_callback_application-credit id w e v i)
step-credit id w (stopped cause) e v i = none_accepted (stop-credit id w cause e v i)
step-credit id w (activated_at n) e v i =
    none_accepted (Keeps-credit_le id e (activate w n e).0 ((rest-Keeps w e).1 n))
step-credit id w (source_result d m f) e v i =
    none_accepted
      (Keeps-credit_le id e (set_source_result d m f e) ((refl, refl, refl, refl, refl)))
step-credit id w (source_finished f) e v i =
    none_accepted (Keeps-credit_le id e (finish_source w f e).0 (finish_source-Keeps w f e))
step-credit id w (source_interrupted f) e v i =
    none_accepted
      (Keeps-credit_le id e (retain_interrupted_source_error w f e).0 (interrupted-Keeps w f e))
step-credit id w (source_stopped cause) e v i =
    none_accepted (Keeps-credit_le id e (cancel_source cause e).0 ((rest-Keeps w e).0 cause))
step-credit id w awaited e v i =
    none_accepted (Keeps-credit_le id e (wait w e).0 ((rest-Keeps w e).3))
step-credit id w (based_on n) e v i =
    none_accepted (Keeps-credit_le id e (set_base_generation n e) ((rest-Keeps w e).2 n))
step-credit id w commit_begun e v i =
    none_accepted (SameMaps-credit id e (begin_commit e).0 (begin_commit-maps e))
step-credit id w commit_abandoned e v i =
    none_accepted (SameMaps-credit id e (abandon_commit e) (refl, refl, refl))
step-credit id w (commit_decided result terminal) e v i = none_accepted (
    Keeps-credit_le id e (decide_commit w result terminal e)
      (decide_commit-Keeps w result terminal e))
step-credit id w (commit_finished result terminal) e v i = none_accepted (
    SameMaps-credit id e (finish_commit w result terminal e).0
      (finish_commit-maps w result terminal e))
step-credit id w traced e v i =
    none_accepted (Keeps-credit_le id e (emit_source_terminal w e).0 ((rest-Keeps w e).4))

run-credit :
    (id : ℕ) (cs : List (World × Call)) (e : Enrichment)
    → IsSerial e
    → IsIssued e
    → accepted_loads id cs e ≤ credit id e
run-credit id [] e v i = ground arith
run-credit id ((w, c) ∷ cs) e v i = ground (
  arith,
  step-credit id w c e v i,
  run-credit id cs (step w c e) (step-IsSerial w c e v) (step-IsIssued w c e v i),
)

-- Over any steps of a new coordinator, in any order, at most one load of an event is accepted.
pub accepted_loads_le_one :
    (id : ℕ) (cs : List (World × Call)) → accepted_loads id cs new_enrichment ≤ 1
unfolding new_enrichment
accepted_loads_le_one id cs =
    ground (arith, run-credit id cs new_enrichment new_enrichment-IsSerial new_enrichment-IsIssued)
