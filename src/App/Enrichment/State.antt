-- ===== src/App/Enrichment/State.antt =====
-- internal/app/enrichment.go and enrichment_lifecycle.go: the coordinator's fields and what every
-- step uses.
use shell_picker.Base.{
  ℕ, Bool, true, false, if◌then◌else◌, not, ◌||◌, ◌&&◌, ◌==◌, Option, none, some, List, [], ◌∷◌,
  ◌++◌, map, Bytes, length, is_some,
}
use shell_picker.Candidate.Entry.{SourceMetrics, no_metrics}
use shell_picker.App.Failure.{Failure, join_lifecycle_errors}

-- `pendingEvent`.
pub record PendingEvent : Type 0 where
  pub generation : ℕ
  pub close_input : Bool
  pub finalized : Bool
  pub applied : Bool
  pub load_requested : Bool

-- `initialEnrichment`; the maps are association lists, and a cancel function is named by its event.
pub record Enrichment : Type 0 where
  pub active : Bool
  pub activated : Bool
  pub initial_generation : ℕ
  pub base_generation : ℕ
  pub terminal_err : Option Failure
  pub terminal_finalized : Bool
  pub terminal : Bool
  pub committing : Bool
  pub in_flight : ℕ
  pub trace_outcome : Bytes
  pub trace_generation : ℕ
  pub trace_candidates : ℕ
  pub discard_requested : Bool
  pub next_event_id : ℕ
  pub event_cancels : List ℕ
  pub pending_events : List (ℕ × PendingEvent)
  pub source_discarded : Bool
  pub source_metrics : SourceMetrics
  pub source_err : Option Failure
  pub trace_once : Bool
  pub close_once : Bool
  pub cancel_once : Bool

-- What `newInitialEnrichment` builds.
unfoldable pub new_enrichment : Enrichment
new_enrichment = record {
  active = true;
  activated = false;
  initial_generation = 0;
  base_generation = 0;
  terminal_err = none;
  terminal_finalized = false;
  terminal = false;
  committing = false;
  in_flight = 0;
  trace_outcome = [];
  trace_generation = 0;
  trace_candidates = 0;
  discard_requested = false;
  next_event_id = 0;
  event_cancels = [];
  pending_events = [];
  source_discarded = false;
  source_metrics = no_metrics;
  source_err = none;
  trace_once = false;
  close_once = false;
  cancel_once = false;
}

-- What a step reads of its surroundings: context.Cause of the parent context, and the addresses at
-- which errors.Join may allocate.
pub record World : Type 0 where
  pub parent_cause : Option Failure
  pub fresh : ℕ
  pub later : ℕ

pub data Output : Type 0 where
  event_cancelled : ℕ → Option Failure → Output
  input_closed : Option Failure → Output
  source_cancelled : Option Failure → Output
  -- `close(enrichment.ready)`.
  ready : Output

-- A map from event IDs: what is found, and the map without an ID.
abbrev pub lookup {ℓ} : {A : Type ℓ} → ℕ → List (ℕ × A) → Option A
lookup id [] = none
lookup id ((k, a) ∷ xs) = if k == id then some a else lookup id xs

abbrev pub remove {ℓ} : {A : Type ℓ} → ℕ → List (ℕ × A) → List (ℕ × A)
remove id [] = []
remove id ((k, a) ∷ xs) = if k == id then remove id xs else (k, a) ∷ remove id xs

abbrev pub has_id : ℕ → List ℕ → Bool
has_id id [] = false
has_id id (k ∷ ks) = k == id || has_id id ks

abbrev pub remove_id : ℕ → List ℕ → List ℕ
remove_id id [] = []
remove_id id (k ∷ ks) = if k == id then remove_id id ks else k ∷ remove_id id ks

-- `deactivateLocked`: the coordinator, the error that it now has, and whether it was active.
unfoldable pub deactivate_locked :
    World → Option Failure → Enrichment → Enrichment × Option Failure × Bool
deactivate_locked w cause e =
    let cause' = join_lifecycle_errors w.fresh cause w.parent_cause in
    let joined' = join_lifecycle_errors w.later e.terminal_err cause' in
    if not e.active
    then (if is_some cause' && not e.terminal_finalized
        then (record e { terminal_err = joined' }, joined', false)
        else (e, e.terminal_err, false))
    else (record e { active = false; terminal_err = joined' }, joined', true)

-- `finish` and `cancelSource`, each effect of which happens once.
unfoldable pub cancel_source : Option Failure → Enrichment → Enrichment × List Output
cancel_source cause e =
    if e.cancel_once
    then (e, [])
    else (record e { cancel_once = true }, source_cancelled cause ∷ [])

unfoldable pub finish : Option Failure → Enrichment → Enrichment × List Output
finish cause e =
    let (f, cancelled) = cancel_source cause (record e { close_once = true }) in
    (f, (if e.close_once then [] else input_closed cause ∷ []) ++ cancelled)

-- The cancel functions of the events in flight, called with one cause.
abbrev pub cancel_events : Option Failure → List ℕ → List Output
cancel_events cause ids = map (λ id. event_cancelled id cause) ids

-- What Stop and failCallbackApplication do to the reservations: those that wait for an action or a
-- load are dropped, those of events that are still handled stay.
abbrev pub drop_pending : Enrichment → Enrichment
drop_pending e = record e { pending_events = []; in_flight = length e.event_cancels }
