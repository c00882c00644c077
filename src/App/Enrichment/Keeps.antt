-- ===== src/App/Enrichment/Keeps.antt =====
-- The steps of internal/app/enrichment*.go that make no reservation of the gate and end none.
use shell_picker.Base.{
  ℕ, ◌-◌, ◌≡◌, ◌⊎◌, inl, inr, true, false, ◌||◌, Option, none, some, ◌∷◌, is_some, arith,
  Bool-cases,
}
use shell_picker.Protocol.Types.{Event}
use shell_picker.Session.Actor.State.{TransitionResult}
use shell_picker.App.Failure.{Failure}
use shell_picker.App.Enrichment.State.{
  Enrichment, PendingEvent, World, cancel_source, finish, deactivate_locked, remove, remove_id,
  has_id,
}
use shell_picker.App.Enrichment.Event.{new_pending, resolve_effect, resolve_event}
use shell_picker.App.Enrichment.Lifecycle.{
  activate, finish_source, retain_interrupted_source_error, wait,
}
use shell_picker.App.Enrichment.Commit.{
  decide_commit, set_trace_decision, Published, set_base_generation,
}
use shell_picker.App.Enrichment.Trace.{emit_source_terminal}

-- Equal reservations.
abbrev pub Keeps : Enrichment → Enrichment → Type 0
Keeps e f =
    (f.event_cancels ≡ e.event_cancels)
    × (f.pending_events ≡ e.pending_events)
    × (f.in_flight ≡ e.in_flight)
    × (f.committing ≡ e.committing)
    × (f.next_event_id ≡ e.next_event_id)

pub deactivate_locked-Keeps :
    (w : World) (cause : Option Failure) (e : Enrichment) → Keeps e (deactivate_locked w cause e).0
unfolding deactivate_locked
deactivate_locked-Keeps w cause e = ground arith

pub finish-Keeps : (cause : Option Failure) (e : Enrichment) → Keeps e (finish cause e).0
unfolding finish cancel_source
finish-Keeps cause e = ground arith

pub resolve_effect-Keeps :
    (w : World) (event : Event) (result : TransitionResult) (e : Enrichment)
    → Keeps e (resolve_effect w event result e).0
unfolding resolve_effect deactivate_locked
resolve_effect-Keeps w event result e = ground arith

-- The handled event is over, and its place in the gate is free.
abbrev pub ended : ℕ → Enrichment → Enrichment
ended id e = record e { event_cancels = remove_id id e.event_cancels; in_flight = e.in_flight - 1 }

-- The handled event waits for its action.
abbrev pub awaiting : ℕ → PendingEvent → Enrichment → Enrichment
awaiting id p e = record e {
  event_cancels = remove_id id e.event_cancels;
  pending_events = (id, p) ∷ remove id e.pending_events;
}

pub resolve_event-ended :
    (w : World) (event : Event) (id : ℕ) (result : TransitionResult) (failure : Option Failure)
    (e : Enrichment)
    → has_id id e.event_cancels ≡ true
    → (is_some failure || e.terminal) ≡ true
    → Keeps (ended id e) (resolve_event w event id result failure e).0
unfolding resolve_event
resolve_event-ended w event id result failure e known over = ground arith

pub resolve_event-awaiting :
    (w : World) (event : Event) (id : ℕ) (result : TransitionResult) (failure : Option Failure)
    (e : Enrichment)
    → has_id id e.event_cancels ≡ true
    → (is_some failure || e.terminal) ≡ false
    → Keeps
        (awaiting id (new_pending event result.effect) e)
        (resolve_event w event id result failure e).0
unfolding resolve_event
resolve_event-awaiting w event id result failure e known goes =
    ground
      (arith, resolve_effect-Keeps w event result (awaiting id (new_pending event result.effect) e))

pub resolve_event-unknown :
    (w : World) (event : Event) (id : ℕ) (result : TransitionResult) (failure : Option Failure)
    (e : Enrichment)
    → has_id id e.event_cancels ≡ false
    → Keeps e (resolve_event w event id result failure e).0
unfolding resolve_event
resolve_event-unknown w event id result failure e unknown = ground arith

-- What a result does to the reservations: nothing, for an event that is not handled; the event's ends;
-- or it waits for its action.
pub resolve_event-cases :
    (w : World) (event : Event) (id : ℕ) (result : TransitionResult) (failure : Option Failure)
    (e : Enrichment)
    → let f = (resolve_event w event id result failure e).0 in
      Keeps e f
      ⊎ ((has_id id e.event_cancels ≡ true)
          × (Keeps (ended id e) f ⊎ Keeps (awaiting id (new_pending event result.effect) e) f))
resolve_event-cases w event id result failure e = elim (Bool-cases (has_id id e.event_cancels)) [
  | inl known ↦ elim (Bool-cases (is_some failure || e.terminal)) [
    | inl over ↦ inr (known, inl (resolve_event-ended w event id result failure e known over))
    | inr goes ↦ inr (known, inr (resolve_event-awaiting w event id result failure e known goes))
  ]
  | inr unknown ↦ inl (resolve_event-unknown w event id result failure e unknown)
]

pub finish_source-Keeps :
    (w : World) (failure : Option Failure) (e : Enrichment) → Keeps e (finish_source w failure e).0
unfolding finish_source
finish_source-Keeps w failure e =
    let f = (deactivate_locked w failure e) in
    ground (arith, deactivate_locked-Keeps w failure e, finish-Keeps f.1 f.0)

pub rest-Keeps :
    (w : World) (e : Enrichment)
    → ((cause : Option Failure) → Keeps e (cancel_source cause e).0)
      × ((generation : ℕ) → Keeps e (activate w generation e).0)
      × ((generation : ℕ) → Keeps e (set_base_generation generation e))
      × Keeps e (wait w e).0
      × Keeps e (emit_source_terminal w e).0
unfolding cancel_source activate set_base_generation wait emit_source_terminal
rest-Keeps w e = (
  (λ cause. ground arith),
  (λ generation. ground arith),
  (λ generation. ground arith),
  ground arith,
  ground arith,
)

pub interrupted-Keeps :
    (w : World) (failure : Option Failure) (e : Enrichment)
    → Keeps e (retain_interrupted_source_error w failure e).0
unfolding retain_interrupted_source_error
interrupted-Keeps w none e = ground arith
interrupted-Keeps w (some f) e = ground (arith, finish_source-Keeps w (some f) e)

pub decide_commit-Keeps :
    (w : World) (result : Published) (terminal : Option Failure) (e : Enrichment)
    → Keeps e (decide_commit w result terminal e)
unfolding decide_commit set_trace_decision
decide_commit-Keeps w result terminal e = ground arith
