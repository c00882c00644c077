-- ===== src/Callback/Telemetry/Names.antt =====
-- internal/callback/dispatch.go and internal/sessionipc/dto.go: the names of renderers in the reports
-- of a preview, which a fallback to the native renderer makes longer, and the check of the reports.
use shell_picker.Base.{
  ℕ, suc, ◌+◌, ◌*◌, ◌≤◌, ◌≡◌, refl, subst, Bool, true, false, not, ◌&&◌, ◌==◌, ltb, leb,
  if◌then◌else◌, List, [], ◌∷◌, ◌++◌, Bytes, bytes_eq, codes, length, length-append, all, All,
  All-append, arith,
}
use shell_picker.Sessionipc.Preview.{PreviewRequest, valid_telemetry_value, no_text}
use shell_picker.Callback.Telemetry.{
  PreviewTelemetry, new_telemetry, Observation, dispatched, child_start, child_exit, other_event,
  observe, observe_all, observe_preview_dispatch, next_renderer, snapshot_invalid, Rendering,
  report_preview, observed, start_once, last_report, native,
}
use shell_picker.Callback.Telemetry.Reports.{IsNamed, Accepted, report_preview-Accepted}

abbrev pub is_native : Observation → Bool
is_native (dispatched renderer duration) = bytes_eq renderer native
is_native _ = false

-- The observations that may add a fallback to the name.
abbrev pub natives : List Observation → ℕ
natives [] = 0
natives (o ∷ os) = if is_native o then suc (natives os) else natives os

abbrev pub printable : Bytes → Bool
printable = all (λ c. leb 0x21 c && leb c 0x7e)

-- A name of printable characters that has room for `n` fallbacks.
abbrev pub HasRoom : ℕ → Bytes → Type 0
HasRoom n name = (no_text name ≡ false) × (printable name ≡ true) × (length name + 9 * n ≤ 64)

-- An observation without a renderer, or whose renderer has such a name.
abbrev pub NamesRoom : ℕ → Observation → Type 0
NamesRoom n (dispatched [] duration) = Unit
NamesRoom n (dispatched (c ∷ s) duration) = HasRoom n (c ∷ s)
NamesRoom n _ = Unit

printable-append :
    (s u : Bytes) → printable s ≡ true → printable u ≡ true → printable (s ++ u) ≡ true
printable-append [] u h k = k
printable-append (c ∷ s) u h k = ground (arith, printable-append s u)

fallback-HasRoom :
    (n : ℕ) (name : Bytes) → HasRoom (suc n) name → HasRoom n (name ++ codes "-fallback")
fallback-HasRoom n [] h = cc
fallback-HasRoom n (c ∷ s) (a, b, d) = (
  refl,
  printable-append (c ∷ s) (codes "-fallback") b refl,
  omega (arith, length-append (c ∷ s) (codes "-fallback"), d),
)

HasRoom-le : {m n : ℕ} (name : Bytes) → n ≤ m → HasRoom m name → HasRoom n name
HasRoom-le name h (a, b, d) = (a, b, omega arith)

HasRoom-sound : (n : ℕ) (name : Bytes) → HasRoom n name → valid_telemetry_value name ≡ true
unfolding valid_telemetry_value
HasRoom-sound n name (a, b, d) = ground arith

if-HasRoom :
    (n : ℕ) (b : Bool) (x y : Bytes)
    → (b ≡ true → HasRoom n x)
    → (b ≡ false → HasRoom n y)
    → HasRoom n (if b then x else y)
if-HasRoom n true x y h k = h refl
if-HasRoom n false x y h k = k refl

natives_le : (o : Observation) (os : List Observation) → natives os ≤ natives (o ∷ os)
natives_le o os = ground arith

natives-native :
    (renderer : Bytes) (duration : ℕ) (os : List Observation) (b c : Bool)
    → (bytes_eq renderer native && b && c) ≡ true
    → natives (dispatched renderer duration ∷ os) ≡ suc (natives os)
natives-native renderer duration os b c h = ground arith

next_renderer-HasRoom :
    (total : ℕ) (renderer : Bytes) (duration : ℕ) (os : List Observation) (t : PreviewTelemetry)
    → natives (dispatched renderer duration ∷ os) ≤ total
    → NamesRoom total (dispatched renderer duration)
    → HasRoom (natives (dispatched renderer duration ∷ os)) t.renderer
    → HasRoom (natives os) (next_renderer t renderer)
next_renderer-HasRoom total [] duration os t h k v =
    HasRoom-le t.renderer (natives_le (dispatched [] duration) os) v
next_renderer-HasRoom total (c ∷ s) duration os t h k v =
    let falls_back =
      bytes_eq (c ∷ s) native && ltb 0 t.child_starts && not (bytes_eq t.renderer native) in
    if-HasRoom (natives os) falls_back (t.renderer ++ codes "-fallback") (c ∷ s)
      (λ e. fallback-HasRoom (natives os) t.renderer (
        subst (λ n. HasRoom n t.renderer)
          (natives-native (c ∷ s) duration os (ltb 0 t.child_starts)
            (not (bytes_eq t.renderer native)) e)
          v))
      (λ e.
        HasRoom-le {n = natives os} (c ∷ s)
          (omega (arith, natives_le (dispatched (c ∷ s) duration) os, h)) k)

-- The state's name has room for what is to come, and the names that were sent are valid.
abbrev Fit : ℕ → PreviewTelemetry × List PreviewRequest → Type 0
Fit n r = HasRoom n ((r.0).renderer) × All IsNamed (r.1)

start_once-IsNamed :
    (n : ℕ) (b : Bool) (current name : Bytes)
    → HasRoom n name
    → All IsNamed (start_once b current name)
start_once-IsNamed n true current name h = tt
start_once-IsNamed n false current name h = (HasRoom-sound n name h, tt)

dispatch-Fit :
    (total : ℕ) (b : Bool) (current renderer : Bytes) (duration : ℕ) (os : List Observation)
    (t : PreviewTelemetry)
    → natives (dispatched renderer duration ∷ os) ≤ total
    → NamesRoom total (dispatched renderer duration)
    → HasRoom (natives (dispatched renderer duration ∷ os)) t.renderer
    → Fit (natives os) (observe_preview_dispatch b current renderer t)
dispatch-Fit total true current renderer duration os t h k v =
    let next = next_renderer-HasRoom total renderer duration os t h k v in
    (next, start_once-IsNamed (natives os) t.has_started current _ next)
dispatch-Fit total false current renderer duration os t h k v =
    (HasRoom-le t.renderer (natives_le (dispatched renderer duration) os) v, tt)

observe-Fit :
    (total : ℕ) (current : Bytes) (o : Observation) (os : List Observation) (t : PreviewTelemetry)
    → natives (o ∷ os) ≤ total
    → NamesRoom total o
    → HasRoom (natives (o ∷ os)) t.renderer
    → Fit (natives os) (observe current o t)
unfolding observe
observe-Fit total current (dispatched renderer duration) os t h k v =
    dispatch-Fit total (duration == 0) current renderer duration os t h k v
observe-Fit total current child_start os t h k v = (v, tt)
observe-Fit total current child_exit os t h k v = (v, tt)
observe-Fit total current other_event os t h k v = (v, tt)

observe_all-Fit :
    (total : ℕ) (current : Bytes) (os : List Observation) (t : PreviewTelemetry)
    → natives os ≤ total
    → All (NamesRoom total) os
    → HasRoom (natives os) t.renderer
    → Fit 0 (observe_all current os t)
unfolding observe_all
observe_all-Fit total current [] t h k v = (v, tt)
observe_all-Fit total current (o ∷ os) t h k v =
    let first = observe-Fit total current o os t h k.0 v in
    let rest =
      observe_all-Fit total current os ((observe current o t).0) (omega (arith, natives_le o os, h))
        k.1 first.0 in
    (rest.0, All-append IsNamed _ _ first.1 rest.1)

last_report-IsNamed :
    {E : Type 0} (b : Bool) (current : Bytes) (r : Rendering E) (t : PreviewTelemetry)
    (requests : List PreviewRequest)
    → HasRoom 0 t.renderer
    → All IsNamed requests
    → All IsNamed ((last_report b current r t requests).1)
last_report-IsNamed true current r t requests h k = k
last_report-IsNamed false current r t requests h k =
    All-append IsNamed requests _ k (HasRoom-sound 0 t.renderer h, tt)

report_preview-IsNamed :
    {E : Type 0} (current : Bytes) (r : Rendering E)
    → natives r.observations ≤ 6
    → All (NamesRoom (natives r.observations)) r.observations
    → All IsNamed ((report_preview current r).1)
unfolding report_preview
report_preview-IsNamed current r h k =
    let (room, named) =
      observe_all-Fit (natives r.observations) current r.observations new_telemetry (omega arith) k
        (refl, refl, omega (arith, h)) in
    last_report-IsNamed r.terminal current r _ _ room
      (All-append IsNamed _ _ named (start_once-IsNamed 0 _ current _ room))

-- Every request that a preview sends passes validatePreview, the check that the session's server
-- makes before it looks the item up: provided there is a current item, the children stayed within
-- their limits, and the observed renderers have names of printable characters that stay within
-- the 64 bytes of a telemetry value with a `-fallback` for each return to the native renderer, of
-- which there are six at most.
pub report_preview-validate_preview :
    {E : Type 0} (current : Bytes) (r : Rendering E)
    → no_text current ≡ false
    → snapshot_invalid ((observed current r).0) ≡ false
    → natives r.observations ≤ 6
    → All (NamesRoom (natives r.observations)) r.observations
    → All Accepted ((report_preview current r).1)
report_preview-validate_preview current r h k n names =
    report_preview-Accepted current r h k (report_preview-IsNamed current r n names)
