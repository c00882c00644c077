-- ===== src/Callback/Telemetry/Reports.antt =====
-- internal/callback/dispatch.go and internal/sessionipc/dto.go: the requests that a preview sends
-- are one start and one end, and validatePreview accepts them.
use shell_picker.Base.{
  ℕ, ◌+◌, ◌≤◌, ◌≡◌, ap, sym, subst, ◌∙◌, refl, Bool, true, false, not, ◌&&◌, ◌||◌, ◌==◌, leb,
  Option, none, some, List, [], ◌∷◌, ◌++◌, Bytes, bytes_eq, length, length-append, append-nil, All,
  All-append, arith, ok,
}
use shell_picker.Sessionipc.Preview.{
  PreviewRequest, validate_preview, valid_telemetry_value, no_text, max_duration_us,
}
use shell_picker.Callback.Telemetry.{
  PreviewTelemetry, new_telemetry, Observation, dispatched, child_start, child_exit, other_event,
  observe, observe_all, observe_preview_dispatch, ensure_started, started_request, finished_request,
  start_once, last_report, snapshot_invalid, Rendering, report_preview, observed, capped, native,
  outcome_of,
}

-- What the counters of the children keep to.
abbrev Keeps : PreviewTelemetry → Type 0
Keeps t =
    (t.live ≤ t.child_starts)
    × (t.max_live ≤ t.child_starts)
    × (t.invalid ≡ false → (t.child_starts ≤ 3) × (t.max_live ≤ 1))

observe_preview_dispatch-Keeps :
    (b : Bool) (current renderer : Bytes) (t : PreviewTelemetry)
    → Keeps t
    → Keeps ((observe_preview_dispatch b current renderer t).0)
observe_preview_dispatch-Keeps true current renderer t h = h
observe_preview_dispatch-Keeps false current renderer t h = h

observe-Keeps :
    (current : Bytes) (o : Observation) (t : PreviewTelemetry)
    → Keeps t
    → Keeps ((observe current o t).0)
unfolding observe
observe-Keeps current (dispatched renderer duration) t h =
    observe_preview_dispatch-Keeps (duration == 0) current renderer t h
observe-Keeps current child_start t h = ground arith
observe-Keeps current child_exit t h = ground arith
observe-Keeps current other_event t h = ground arith

observe_all-Keeps :
    (current : Bytes) (os : List Observation) (t : PreviewTelemetry)
    → Keeps t
    → Keeps ((observe_all current os t).0)
unfolding observe_all
observe_all-Keeps current [] t h = h
observe_all-Keeps current (o ∷ os) t h =
    observe_all-Keeps current os ((observe current o t).0) (observe-Keeps current o t h)

abbrev bit : Bool → ℕ
bit true = 1
bit false = 0

-- Each request is a start, and there is one just where the state comes to have started.
abbrev Starts : Bytes → PreviewTelemetry → PreviewTelemetry × List PreviewRequest → Type 0
Starts current t r =
    (bit t.has_started + length (r.1) ≡ bit (r.0).has_started)
    × All (λ q. (renderer : Bytes) × (q ≡ started_request current renderer)) (r.1)

start_once-Starts :
    (b : Bool) (current renderer : Bytes)
    → (bit b + length (start_once b current renderer) ≡ 1)
      × All (λ q. (r : Bytes) × (q ≡ started_request current r)) (start_once b current renderer)
start_once-Starts true current renderer = (refl, tt)
start_once-Starts false current renderer = (refl, ((renderer, refl), tt))

observe_preview_dispatch-Starts :
    (b : Bool) (current renderer : Bytes) (t : PreviewTelemetry)
    → Starts current t (observe_preview_dispatch b current renderer t)
observe_preview_dispatch-Starts true current renderer t = start_once-Starts t.has_started current _
observe_preview_dispatch-Starts false current renderer t = (omega arith, tt)

observe-Starts :
    (current : Bytes) (o : Observation) (t : PreviewTelemetry)
    → Starts current t (observe current o t)
unfolding observe
observe-Starts current (dispatched renderer duration) t =
    observe_preview_dispatch-Starts (duration == 0) current renderer t
observe-Starts current child_start t = (omega arith, tt)
observe-Starts current child_exit t = (omega arith, tt)
observe-Starts current other_event t = (omega arith, tt)

-- Two stretches of observations, one after the other.
Starts-along :
    (current : Bytes) (t : PreviewTelemetry) (first next : PreviewTelemetry × List PreviewRequest)
    → Starts current t first
    → Starts current (first.0) next
    → Starts current t (next.0, first.1 ++ next.1)
Starts-along current t first next h k = (
  omega (arith, h.0, k.0, length-append (first.1) (next.1)),
  All-append _ (first.1) (next.1) (h.1) (k.1),
)

observe_all-Starts :
    (current : Bytes) (os : List Observation) (t : PreviewTelemetry)
    → Starts current t (observe_all current os t)
unfolding observe_all
observe_all-Starts current [] t = (omega arith, tt)
observe_all-Starts current (o ∷ os) t =
    Starts-along current t (observe current o t) (observe_all current os ((observe current o t).0))
      (observe-Starts current o t) (observe_all-Starts current os ((observe current o t).0))

observed-Starts :
    {E : Type 0} (current : Bytes) (r : Rendering E)
    → Starts current new_telemetry (observed current r)
observed-Starts current r =
    Starts-along current new_telemetry (observe_all current r.observations new_telemetry)
      (ensure_started current ((observe_all current r.observations new_telemetry).0))
      (observe_all-Starts current r.observations new_telemetry) (start_once-Starts _ current _)

observed-Keeps : {E : Type 0} (current : Bytes) (r : Rendering E) → Keeps ((observed current r).0)
observed-Keeps current r =
    observe_all-Keeps current r.observations new_telemetry
      (omega arith, omega arith, λ k. (omega arith, omega arith))

one_start :
    (current : Bytes) (requests : List PreviewRequest)
    → length requests ≡ 1
    → All (λ q. (r : Bytes) × (q ≡ started_request current r)) requests
    → (r : Bytes) × (requests ≡ started_request current r ∷ [])
one_start current [] h k = absurd (omega arith)
one_start current (q ∷ []) h ((r, e), rest) = (r, ap (λ x. x ∷ []) e)
one_start current (q ∷ p ∷ requests) h k = absurd (omega arith)

abbrev pub last_requests : Bool → PreviewRequest → List PreviewRequest
last_requests true last = []
last_requests false last = last ∷ []

last_report-requests :
    {E : Type 0} (b : Bool) (current : Bytes) (r : Rendering E) (t : PreviewTelemetry)
    (requests : List PreviewRequest)
    → (last_report b current r t requests).1
      ≡ requests ++ last_requests b (finished_request current r t)
last_report-requests true current r t requests = sym (append-nil requests)
last_report-requests false current r t requests = refl

-- A preview sends one request of a start and then one of an end with the state of its telemetry,
-- which is missing when the terminal ended.
pub report_preview-start_end :
    {E : Type 0} (current : Bytes) (r : Rendering E)
    → (renderer : Bytes) × ((report_preview current r).1
        ≡ started_request current renderer
          ∷ last_requests r.terminal (finished_request current r ((observed current r).0)))
unfolding report_preview
report_preview-start_end current r =
    let (renderer, e) =
      one_start current ((observed current r).1) (omega (arith, (observed-Starts current r).0))
        (observed-Starts current r).1 in
    (
      renderer,
      last_report-requests r.terminal current r _ _
          ∙ ap
              (λ q.
                q ++ last_requests r.terminal (finished_request current r ((observed current r).0)))
              e,
    )

-- A request that validatePreview accepts.
abbrev pub Accepted : PreviewRequest → Type 0
Accepted q = validate_preview q ≡ ok tt

abbrev pub IsNamed : PreviewRequest → Type 0
IsNamed q = valid_telemetry_value q.renderer ≡ true

started_request-Accepted :
    (current renderer : Bytes)
    → no_text current ≡ false
    → valid_telemetry_value renderer ≡ true
    → Accepted (started_request current renderer)
unfolding validate_preview
started_request-Accepted current renderer h k = ground arith

outcome_of_valid :
    {E : Type 0} (failure : Option E) → valid_telemetry_value (outcome_of failure) ≡ true
unfolding valid_telemetry_value
outcome_of_valid none = refl
outcome_of_valid (some e) = refl

leb-capped : (duration : ℕ) → leb (capped duration) max_duration_us ≡ true
leb-capped duration = ground arith

snapshot_invalid_sound :
    (t : PreviewTelemetry)
    → snapshot_invalid t ≡ false
    → (t.invalid ≡ false)
      × ((not (bytes_eq t.renderer native) || (t.child_starts == 0 && t.max_live == 0)) ≡ true)
unfolding snapshot_invalid
snapshot_invalid_sound t h = ground arith

finished_request-Accepted :
    {E : Type 0} (current : Bytes) (r : Rendering E) (t : PreviewTelemetry)
    → Keeps t
    → snapshot_invalid t ≡ false
    → no_text current ≡ false
    → valid_telemetry_value t.renderer ≡ true
    → Accepted (finished_request current r t)
unfolding validate_preview
finished_request-Accepted current r t h k j v =
    ground (arith, outcome_of_valid r.failure, leb-capped r.duration_us, snapshot_invalid_sound t k)

last_requests-Accepted :
    {E : Type 0} (b : Bool) (current : Bytes) (r : Rendering E) (t : PreviewTelemetry)
    → Keeps t
    → snapshot_invalid t ≡ false
    → no_text current ≡ false
    → All IsNamed (last_requests b (finished_request current r t))
    → All Accepted (last_requests b (finished_request current r t))
last_requests-Accepted true current r t h k j v = tt
last_requests-Accepted false current r t h k j v =
    (finished_request-Accepted current r t h k j (v.0), tt)

-- Every request of a preview passes validatePreview, when it has a current item, its children stayed
-- within their limits, and the names in its requests are telemetry values.
pub report_preview-Accepted :
    {E : Type 0} (current : Bytes) (r : Rendering E)
    → no_text current ≡ false
    → snapshot_invalid ((observed current r).0) ≡ false
    → All IsNamed ((report_preview current r).1)
    → All Accepted ((report_preview current r).1)
report_preview-Accepted current r h k v =
    let (renderer, e) = report_preview-start_end current r in
    let named = subst (All IsNamed) e v in
    subst (All Accepted) (sym e) (
      started_request-Accepted current renderer h (named.0),
      last_requests-Accepted r.terminal current r _ (observed-Keeps current r) k h (named.1),
    )
