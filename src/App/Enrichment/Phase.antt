-- ===== src/App/Enrichment/Phase.antt =====
-- Who holds the gate of internal/app/enrichment.go, as a state machine that the coordinator refines:
-- its fields are forgotten but for the holder.
use shell_picker.Base.{
  ℕ, ◌+◌, ◌≡◌, ◌≤◌, ◌⊎◌, inl, inr, refl, sym, subst, Bool, true, false, Option, some, List, [], ◌∷◌,
  length, arith, Option-cases, is_some, none, ◌≢◌, ◌||◌, Bool-cases,
}
use shell_picker.Protocol.Types.{Event}
use shell_picker.Session.Actor.State.{TransitionResult}
use shell_picker.Sessionipc.Dto.{EventFinalizeRequest, LoadFinalizeRequest, LoadRequest}
use shell_picker.App.Failure.{Failure}
use shell_picker.App.Enrichment.State.{
  Enrichment, PendingEvent, World, has_id, lookup, deactivate_locked, finish, cancel_source,
}
use shell_picker.App.Enrichment.Event.{reserve_event, resolve_event}
use shell_picker.App.Enrichment.Load.{
  finalize_event, begin_load, finalize_load, fail_callback_application, update,
}
use shell_picker.App.Enrichment.Lifecycle.{
  stop, activate, finish_source, retain_interrupted_source_error, wait,
}
use shell_picker.App.Enrichment.Commit.{
  set_base_generation, begin_commit, abandon_commit, Published, decide_commit, finish_commit,
  set_trace_decision,
}
use shell_picker.App.Enrichment.Trace.{set_source_result, emit_source_terminal}
use shell_picker.App.Enrichment.Run.{
  Call, reserve, resolve, acknowledge, load, loaded, application_failed, stopped, activated_at,
  source_result, source_finished, source_interrupted, source_stopped, awaited, based_on,
  commit_begun, commit_abandoned, commit_decided, commit_finished, traced, step,
}
use shell_picker.App.Enrichment.Keeps.{
  Keeps, resolve_event-ended, resolve_event-awaiting, resolve_event-unknown, decide_commit-Keeps,
  finish_source-Keeps, rest-Keeps, interrupted-Keeps,
}
use shell_picker.App.Enrichment.Serial.{IsSerial, length-remove_id, length-remove}

pub data Phase : Type 0 where
  idle committing : Phase
  handling waiting : ℕ → Phase

-- A result of the event that is handled never leaves the gate as it is.
abbrev pub MayStay : Call → Phase → Type 0
MayStay (resolve event id result failure) p = p ≢ handling id
MayStay _ p = Unit

-- The moves of the gate and the calls that make them, of a coordinator that is terminal or not.
pub data Move : Bool → Call → Phase → Phase → Type 0 where
  stays : {t : Bool} {c : Call} {p : Phase} → MayStay c p → Move t c p p
  reserves : {id : ℕ} → Move false reserve idle (handling id)
  fails :
      {t : Bool} {event : Event} {id : ℕ} {result : TransitionResult} {f : Failure}
      → Move t (resolve event id result (some f)) (handling id) idle
  succeeds :
      {event : Event} {id : ℕ} {result : TransitionResult}
      → Move false (resolve event id result none) (handling id) (waiting id)
  comes_late :
      {event : Event} {id : ℕ} {result : TransitionResult}
      → Move true (resolve event id result none) (handling id) idle
  acknowledges :
      {t : Bool} {r : EventFinalizeRequest}
      → r.applied ≡ true
      → Move t (acknowledge r) (waiting r.event_id) idle
  loads :
      {t : Bool} {r : LoadFinalizeRequest}
      → r.applied ≡ true
      → Move t (loaded r) (waiting r.event_id) idle
  breaks : {t : Bool} {id : ℕ} → Move t application_failed (waiting id) idle
  drops : {t : Bool} {cause : Option Failure} {id : ℕ} → Move t (stopped cause) (waiting id) idle
  begins : Move false commit_begun idle committing
  gives_up : {t : Bool} → Move t commit_begun committing idle
  abandons : {t : Bool} → Move t commit_abandoned committing idle
  finishes :
      {t : Bool} {result : Published} {terminal : Option Failure}
      → Move t (commit_finished result terminal) committing idle

abbrev holder : Bool → List ℕ → List (ℕ × PendingEvent) → Phase
holder true ids ps = committing
holder false [] [] = idle
holder false [] ((id, p) ∷ ps) = waiting id
holder false (id ∷ ids) ps = handling id

abbrev pub phase : Enrichment → Phase
phase e = holder e.committing e.event_cancels e.pending_events

abbrev first_id : List (ℕ × PendingEvent) → ℕ
first_id [] = 0
first_id ((id, p) ∷ ps) = id

Move-along :
    {t : Bool} {c : Call} {p q p' q' : Phase} → p' ≡ p → q' ≡ q → Move t c p q → Move t c p' q'
Move-along {t} {c} {p} {q} {p'} {q'} a b m =
    subst (λ x. Move t c x q') (sym a) (subst (λ y. Move t c p y) (sym b) m)

Keeps-phase :
    (t : Bool) (c : Call) (e f : Enrichment)
    → MayStay c (phase e)
    → Keeps e f
    → Move t c (phase e) (phase f)
Keeps-phase t c e f may k = Move-along refl (ground arith) (stays may)

reserve_event-phase :
    (w : World) (e : Enrichment)
    → IsSerial e
    → let f = (reserve_event w e).0 in
      (phase f ≡ phase e)
      ⊎ ((e.terminal ≡ false) × (phase e ≡ idle) × (phase f ≡ handling (e.next_event_id + 1)))
unfolding reserve_event
reserve_event-phase w e v = ground arith

holder-has_id :
    (id : ℕ) (b : Bool) (ids : List ℕ) (ps : List (ℕ × PendingEvent))
    → (b ≡ true → length ids ≡ 0)
    → length ids ≤ 1
    → (has_id id ids ≡ true → holder b ids ps ≡ handling id)
      × (has_id id ids ≡ false → holder b ids ps ≢ handling id)
holder-has_id id true [] ps h k = ((λ e. cc), λ e x. cc)
holder-has_id id false [] [] h k = ((λ e. cc), λ e x. cc)
holder-has_id id false [] (p ∷ ps) h k = ((λ e. cc), λ e x. cc)
holder-has_id id true (j ∷ ids) ps h k = absurd (omega (arith, h refl))
holder-has_id id false (j ∷ []) ps h k = ((λ e. ground arith), λ e x. ground arith)
holder-has_id id false (j ∷ i ∷ ids) ps h k = absurd (omega arith)

handling-has_id :
    (id : ℕ) (e : Enrichment)
    → IsSerial e
    → (has_id id e.event_cancels ≡ true → phase e ≡ handling id)
      × (has_id id e.event_cancels ≡ false → phase e ≢ handling id)
handling-has_id id e v =
    holder-has_id id e.committing e.event_cancels e.pending_events (λ h. ground arith)
      (ground arith)

over_phase : Bool → ℕ → Phase
over_phase true id = idle
over_phase false id = waiting id

resolve_event-phase :
    (w : World) (event : Event) (id : ℕ) (result : TransitionResult) (failure : Option Failure)
    (e : Enrichment)
    → IsSerial e
    → let f = (resolve_event w event id result failure e).0 in
      ((phase e ≢ handling id) × (phase f ≡ phase e))
      ⊎ ((phase e ≡ handling id) × (phase f ≡ over_phase (is_some failure || e.terminal) id))
unfolding over_phase
resolve_event-phase w event id result failure e v = elim (Bool-cases (has_id id e.event_cancels)) [
  | inl known ↦ inr (
    (handling-has_id id e v).0 known,
    elim (Bool-cases (is_some failure || e.terminal)) [
      | inl over ↦ rw over (
          ground (
            arith,
            resolve_event-ended w event id result failure e known over,
            length-remove_id id e.event_cancels known,
          ))
      | inr goes ↦ rw goes (
          ground (
            arith,
            resolve_event-awaiting w event id result failure e known goes,
            length-remove_id id e.event_cancels known,
          ))
    ],
  )
  | inr unknown ↦ inl (
    (handling-has_id id e v).1 unknown,
    ground (arith, resolve_event-unknown w event id result failure e unknown),
  )
]

fail_callback_application-phase :
    (w : World) (e : Enrichment)
    → IsSerial e
    → let f = (fail_callback_application w e).0 in
      (phase f ≡ phase e) ⊎ ((phase e ≡ waiting (first_id e.pending_events)) × (phase f ≡ idle))
unfolding fail_callback_application deactivate_locked finish cancel_source
fail_callback_application-phase w e v = ground arith

stop-phase :
    (w : World) (cause : Option Failure) (e : Enrichment)
    → IsSerial e
    → let f = (stop w cause e).0 in
      (phase f ≡ phase e) ⊎ ((phase e ≡ waiting (first_id e.pending_events)) × (phase f ≡ idle))
unfolding stop deactivate_locked finish cancel_source
stop-phase w cause e v = ground arith

first_id-lookup :
    (id : ℕ) (ps : List (ℕ × PendingEvent)) {p : PendingEvent}
    → lookup id ps ≡ some p
    → length ps ≤ 1
    → first_id ps ≡ id
first_id-lookup id [] h k = cc
first_id-lookup id ((j, q) ∷ []) h k = ground arith
first_id-lookup id (x ∷ y ∷ ys) h k = absurd (omega arith)

first_id-update :
    (id : ℕ) (p : PendingEvent) (ps : List (ℕ × PendingEvent)) (b : Bool) (ids : List ℕ)
    → holder b ids (update id p ps) ≡ holder b ids ps
first_id-update id p [] b ids = refl
first_id-update id p ((k, q) ∷ ps) b ids = ground arith

finalize_event-phase :
    (r : EventFinalizeRequest) (e : Enrichment)
    → IsSerial e
    → let f = (finalize_event r e).0 in
      (phase f ≡ phase e) ⊎ ((r.applied ≡ true) × (phase e ≡ waiting r.event_id) × (phase f ≡ idle))
unfolding finalize_event
finalize_event-phase r e v = elim (Option-cases (lookup r.event_id e.pending_events)) [
  | inl missing ↦ ground arith
  | inr (p, found) ↦ ground (
    arith,
    length-remove r.event_id e.pending_events found,
    first_id-lookup r.event_id e.pending_events found,
    first_id-update r.event_id (record p { finalized = true; applied = true }) e.pending_events
        e.committing e.event_cancels,
  )
]

begin_load-phase : (r : LoadRequest) (e : Enrichment) → phase (begin_load r e).0 ≡ phase e
unfolding begin_load
begin_load-phase r e = elim (Option-cases (lookup r.event_id e.pending_events)) [
  | inl missing ↦ ground arith
  | inr (p, found) ↦ ground (
    arith,
    first_id-update r.event_id (record p { load_requested = true }) e.pending_events e.committing
        e.event_cancels,
  )
]

finalize_load-phase :
    (r : LoadFinalizeRequest) (e : Enrichment)
    → IsSerial e
    → let f = (finalize_load r e).0 in
      (phase f ≡ phase e) ⊎ ((r.applied ≡ true) × (phase e ≡ waiting r.event_id) × (phase f ≡ idle))
unfolding finalize_load
finalize_load-phase r e v = elim (Option-cases (lookup r.event_id e.pending_events)) [
  | inl missing ↦ ground arith
  | inr (p, found) ↦ ground (
    arith,
    length-remove r.event_id e.pending_events found,
    first_id-lookup r.event_id e.pending_events found,
  )
]

begin_commit-phase :
    (e : Enrichment)
    → IsSerial e
    → let f = (begin_commit e).0 in
      (phase f ≡ phase e)
      ⊎ (((e.terminal ≡ false) × (phase e ≡ idle) × (phase f ≡ committing))
          ⊎ ((phase e ≡ committing) × (phase f ≡ idle)))
unfolding begin_commit
begin_commit-phase e v = ground arith

abandon_commit-phase :
    (e : Enrichment)
    → IsSerial e
    → let f = abandon_commit e in (phase f ≡ phase e) ⊎ ((phase e ≡ committing) × (phase f ≡ idle))
unfolding abandon_commit
abandon_commit-phase e v = ground arith

finish_commit-phase :
    (w : World) (result : Published) (terminal : Option Failure) (e : Enrichment)
    → IsSerial e
    → let f = (finish_commit w result terminal e).0 in
      (phase f ≡ phase e) ⊎ ((phase e ≡ committing) × (phase f ≡ idle))
unfolding finish_commit finish cancel_source deactivate_locked set_trace_decision
finish_commit-phase w result terminal e v = ground arith

Move-at : {t u : Bool} {c : Call} {p q : Phase} → u ≡ t → Move t c p q → Move u c p q
Move-at {t} {u} {c} {p} {q} h m = subst (λ x. Move x c p q) (sym h) m

-- Two ways a step can go on: it stays, or it moves.
Move-by_cases :
    {t : Bool} {c : Call} {p q p' q' : Phase}
    → MayStay c p'
    → Move t c p q
    → (q' ≡ p') ⊎ ((p' ≡ p) × (q' ≡ q))
    → Move t c p' q'
Move-by_cases may m (inl e) = Move-along refl e (stays may)
Move-by_cases may m (inr (a, b)) = Move-along a b m

resolve_move :
    (t : Bool) (event : Event) (id : ℕ) (result : TransitionResult) (failure : Option Failure)
    → Move t (resolve event id result failure) (handling id) (over_phase (is_some failure || t) id)
unfolding over_phase
resolve_move t event id result (some f) = fails
resolve_move true event id result none = comes_late
resolve_move false event id result none = succeeds

-- Refinement: every step of a coordinator in which the gate is serialized is a move of the state
-- machine on its holder. An event reserves the idle gate, unless the coordinator is terminal, and
-- the result of the event that is handled always moves the gate: back to idle when the event
-- failed or the coordinator is terminal, and else to the wait for its action and load. The wait
-- ends with an acknowledgement or a load of that event that was applied, with a failed
-- application, or when the coordinator stops; a commit enters the idle gate of a coordinator that
-- is not terminal, and leaves it. No other call moves the gate.
pub step-refines :
    (w : World) (c : Call) (e : Enrichment)
    → IsSerial e
    → Move e.terminal c (phase e) (phase (step w c e))
unfolding step set_source_result
step-refines w reserve e v = elim (reserve_event-phase w e v) [
  | inl same ↦ Move-along refl same (stays tt)
  | inr (live, was, is) ↦ Move-along was is (Move-at live reserves)
]
step-refines w (resolve event id result failure) e v =
    elim (resolve_event-phase w event id result failure e v) [
      | inl (other, same) ↦ Move-along refl same (stays other)
      | inr (held, is) ↦ Move-along held is (resolve_move e.terminal event id result failure)
    ]
step-refines w (acknowledge r) e v = elim (finalize_event-phase r e v) [
  | inl same ↦ Move-along refl same (stays tt)
  | inr (applied, was, is) ↦ Move-along was is (acknowledges applied)
]
step-refines w (load r) e v = Move-along refl (begin_load-phase r e) (stays tt)
step-refines w (loaded r) e v = elim (finalize_load-phase r e v) [
  | inl same ↦ Move-along refl same (stays tt)
  | inr (applied, was, is) ↦ Move-along was is (loads applied)
]
step-refines w application_failed e v =
    Move-by_cases tt breaks (fail_callback_application-phase w e v)
step-refines w (stopped cause) e v = Move-by_cases tt drops (stop-phase w cause e v)
step-refines w (activated_at n) e v = Keeps-phase _ _ e (activate w n e).0 tt ((rest-Keeps w e).1 n)
step-refines w (source_result d m f) e v =
    Keeps-phase _ _ e (set_source_result d m f e) tt (refl, refl, refl, refl, refl)
step-refines w (source_finished f) e v =
    Keeps-phase _ _ e (finish_source w f e).0 tt (finish_source-Keeps w f e)
step-refines w (source_interrupted f) e v =
    Keeps-phase _ _ e (retain_interrupted_source_error w f e).0 tt (interrupted-Keeps w f e)
step-refines w (source_stopped cause) e v =
    Keeps-phase _ _ e (cancel_source cause e).0 tt ((rest-Keeps w e).0 cause)
step-refines w awaited e v = Keeps-phase _ _ e (wait w e).0 tt (rest-Keeps w e).3
step-refines w (based_on n) e v =
    Keeps-phase _ _ e (set_base_generation n e) tt ((rest-Keeps w e).2 n)
step-refines w commit_begun e v = elim (begin_commit-phase e v) [
  | inl same ↦ Move-along refl same (stays tt)
  | inr (inl (live, was, is)) ↦ Move-along was is (Move-at live begins)
  | inr (inr (was, is)) ↦ Move-along was is gives_up
]
step-refines w commit_abandoned e v = Move-by_cases tt abandons (abandon_commit-phase e v)
step-refines w (commit_decided result terminal) e v =
    Keeps-phase _ _ e (decide_commit w result terminal e) tt
      (decide_commit-Keeps w result terminal e)
step-refines w (commit_finished result terminal) e v =
    Move-by_cases tt finishes (finish_commit-phase w result terminal e v)
step-refines w traced e v = Keeps-phase _ _ e (emit_source_terminal w e).0 tt (rest-Keeps w e).4
