-- ===== src/Callback/Telemetry.antt =====
-- internal/callback/dispatch.go: what a preview reports. A rendering is what was observed while it
-- ran, in order; recordSoft is the request that it sends, whose answer is ignored. The mutex
-- makes each observation one step.
pub mod Reports
pub mod Names
use shell_picker.Base.{
  ℕ, suc, ◌-◌, Bool, true, false, not, ◌&&◌, ◌||◌, ◌==◌, ltb, leb, if◌then◌else◌, Option, none,
  some, List, [], ◌∷◌, ◌++◌, Bytes, bytes_eq, codes,
}
use shell_picker.Sessionipc.Preview.{ℤ, pos, PreviewRequest, started, finished, max_duration_us}

-- `previewTelemetry`, without the constants of one preview.
pub record PreviewTelemetry : Type 0 where
  pub renderer : Bytes
  pub has_started : Bool
  pub child_starts : ℕ
  pub live : ℕ
  pub max_live : ℕ
  pub invalid : Bool

abbrev pub native : Bytes
native = codes "native"

abbrev pub new_telemetry : PreviewTelemetry
new_telemetry = record {
  renderer = native;
  has_started = false;
  child_starts = 0;
  live = 0;
  max_live = 0;
  invalid = false;
}

-- A call of ObservePreviewDispatch with its renderer and duration, or of ObservePreviewProcess
-- with its phase.
pub data Observation : Type 0 where
  dispatched : Bytes → ℕ → Observation
  child_start child_exit other_event : Observation

abbrev pub next_renderer : PreviewTelemetry → Bytes → Bytes
next_renderer t [] = t.renderer
next_renderer t (c ∷ s) =
    if bytes_eq (c ∷ s) native && ltb 0 t.child_starts && not (bytes_eq t.renderer native)
    then t.renderer ++ codes "-fallback"
    else c ∷ s

abbrev pub started_request : Bytes → Bytes → PreviewRequest
started_request current renderer = record {
  phase = started;
  current_item_base64 = current;
  renderer = renderer;
  duration_us = pos 0;
  child_starts = pos 0;
  max_live_children = pos 0;
  outcome = [];
}

-- The request of a start, when there has been none.
abbrev pub start_once : Bool → Bytes → Bytes → List PreviewRequest
start_once true current renderer = []
start_once false current renderer = started_request current renderer ∷ []

-- `ensureStarted`.
abbrev pub ensure_started : Bytes → PreviewTelemetry → PreviewTelemetry × List PreviewRequest
ensure_started current t =
    (record t { has_started = true }, start_once t.has_started current t.renderer)

-- `ObservePreviewDispatch`, told whether the duration is 0.
abbrev pub observe_preview_dispatch :
    Bool → Bytes → Bytes → PreviewTelemetry → PreviewTelemetry × List PreviewRequest
observe_preview_dispatch false current renderer t = (t, [])
observe_preview_dispatch true current renderer t =
    ensure_started current (record t { renderer = next_renderer t renderer })

abbrev pub max_of : ℕ → ℕ → ℕ
max_of m n = if ltb n m then m else n

abbrev pub judged : PreviewTelemetry → PreviewTelemetry
judged t = record t { invalid = ltb 3 t.child_starts || ltb 1 t.max_live }

-- `ObservePreviewProcess`, and the other observation; an exit without a live child is no change, as
-- `-` stops at 0.
unfoldable pub observe :
    Bytes → Observation → PreviewTelemetry → PreviewTelemetry × List PreviewRequest
observe current (dispatched renderer duration) t =
    observe_preview_dispatch (duration == 0) current renderer t
observe current child_start t = (
  judged (record t {
    child_starts = suc t.child_starts;
    live = suc t.live;
    max_live = max_of (suc t.live) t.max_live;
  }),
  [],
)
observe current child_exit t = (judged (record t { live = t.live - 1 }), [])
observe current other_event t = (judged t, [])

unfoldable pub observe_all :
    Bytes → List Observation → PreviewTelemetry → PreviewTelemetry × List PreviewRequest
unfolding observe
observe_all current [] t = (t, [])
observe_all current (o ∷ os) t =
    let (next, requests) = observe current o t in
    let (last, later) = observe_all current os next in (last, requests ++ later)

-- The last value of `snapshot`.
unfoldable pub snapshot_invalid : PreviewTelemetry → Bool
snapshot_invalid t =
    t.invalid
    || not (t.live == 0)
    || (bytes_eq t.renderer native && (not (t.child_starts == 0) || not (t.max_live == 0)))

-- What the renderer did: it failed with an error, which may be ErrTerminalResource.
pub record Rendering (E : Type 0) : Type 0 where
  pub observations : List Observation
  pub failure : Option E
  pub terminal : Bool
  pub duration_us : ℕ

pub data PreviewFailure (E : Type 0) : Type 0 where
  rendering_failed : E → PreviewFailure E
  child_limit_exceeded : PreviewFailure E

abbrev pub capped : ℕ → ℕ
capped duration = if ltb max_duration_us duration then max_duration_us else duration

abbrev pub outcome_of : {E : Type 0} → Option E → Bytes
outcome_of none = codes "ok"
outcome_of (some e) = codes "error"

abbrev pub finished_request : {E : Type 0} → Bytes → Rendering E → PreviewTelemetry → PreviewRequest
finished_request current r t = record {
  phase = finished;
  current_item_base64 = current;
  renderer = t.renderer;
  duration_us = pos (capped r.duration_us);
  child_starts = pos t.child_starts;
  max_live_children = pos t.max_live;
  outcome = outcome_of r.failure;
}

abbrev pub preview_result : {E : Type 0} → Bool → Option E → Option (PreviewFailure E)
preview_result invalid (some e) = some (rendering_failed e)
preview_result true none = some child_limit_exceeded
preview_result false none = none

-- The state behind the rendering, and the requests until then.
abbrev pub observed : {E : Type 0} → Bytes → Rendering E → PreviewTelemetry × List PreviewRequest
observed current r =
    let (t, requests) = observe_all current r.observations new_telemetry in
    let (last, later) = ensure_started current t in (last, requests ++ later)

abbrev pub last_report :
    {E : Type 0}
    → Bool
    → Bytes
    → Rendering E
    → PreviewTelemetry
    → List PreviewRequest
    → Option (PreviewFailure E) × List PreviewRequest
last_report true current r t requests = (preview_result false r.failure, requests)
last_report false current r t requests =
    (preview_result (snapshot_invalid t) r.failure, requests ++ finished_request current r t ∷ [])

-- `dispatchPreview` from the call of the renderer on.
unfoldable pub report_preview :
    {E : Type 0} → Bytes → Rendering E → Option (PreviewFailure E) × List PreviewRequest
unfolding observe_all snapshot_invalid
report_preview current r =
    let (t, requests) = observed current r in last_report r.terminal current r t requests
