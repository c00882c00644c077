-- ===== src/Tests/Callback.antt =====
-- The callbacks on a writer that takes two bytes at a time.
use shell_picker.Base.{
  ℕ, true, false, Option, none, some, [], ◌∷◌, ◌++◌, Bytes, ◌≡◌, ap, refl, codes, take, length, ok,
  err, map, All, bytes_eq, arith,
}
use shell_picker.Protocol.Types.{no_effect, parent, block}
use shell_picker.Sessionipc.Dto.{EventResponse}
use shell_picker.Callback.Grammar.{event_command, load_of}
use shell_picker.Callback.Dispatch.{
  Written, Client, write_all, dispatch_event, dispatch_load, event_action,
}
use shell_picker.Callback.Dispatch.Complete.{Appends, Complete, write_all-Complete}
use shell_picker.Callback.Dispatch.Settled.{
  Settled, event_finals, load_finals, event_final, load_final, dispatch_event-Settled,
  dispatch_load-Settled,
}
use shell_picker.Callback.Telemetry.{
  Rendering, dispatched, child_start, child_exit, report_preview, observe_all, snapshot_invalid,
}
use shell_picker.Callback.Telemetry.Reports.{Accepted}
use shell_picker.Callback.Telemetry.Names.{report_preview-validate_preview}

abbrev two_at_once : Bytes → Bytes → Bytes × Written ℕ
two_at_once w s = ((w ++ take 2 s), record { count = some (length (take 2 s)); failure = none })

abbrev all_of : Bytes → Bytes
all_of w = w

abbrev no_header : Bytes → Option Bytes
no_header s = none

abbrev value : Option ℕ → ℕ
value none = 0
value (some n) = n

two_at_once-Appends : Appends two_at_once all_of
two_at_once-Appends w [] n e h = ap (λ o. w ++ take (value o) []) e
two_at_once-Appends w (c ∷ []) n e h = ap (λ o. w ++ take (value o) (c ∷ [])) e
two_at_once-Appends w (c ∷ d ∷ s) n e h = ap (λ o. w ++ take (value o) (c ∷ d ∷ s)) e

abbrev answer : EventResponse
answer = record { effect = record no_effect { clear_query = true; cursor = block }; event_id = 7 }

abbrev client : Client ℕ
client = record {
  event = λ request. ok answer;
  finalize_event = λ request. none;
  load = λ request. ok (codes "abcde");
  finalize_load = λ request. some 9;
  display = err 4;
}

abbrev no_env : Bytes → Bytes
no_env name = []

write_all-Complete_example :
    Complete two_at_once all_of (codes "xabcde") (write_all two_at_once (codes "x") (codes "abcde"))
write_all-Complete_example =
    write_all-Complete two_at_once all_of two_at_once-Appends (codes "x") (codes "abcde")

written : write_all two_at_once (codes "x") (codes "abcde") ≡ (codes "xabcde", none)
unfolding write_all
written = refl

dispatch_load-Settled_example :
    (let r = dispatch_load two_at_once no_header client [] (load_of 3 7) in
      Settled two_at_once all_of
        (load_finals (r.1))
        (load_final false 7)
        []
        (client.load (record { generation = 3; event_id = 7 }))
        (r.0))
dispatch_load-Settled_example =
    dispatch_load-Settled two_at_once all_of two_at_once-Appends no_header client [] (load_of 3 7)

dispatch_event-Settled_example :
    (let r = dispatch_event two_at_once no_header client [] no_env (event_command parent) in
      Settled two_at_once all_of
        (event_finals (r.1))
        (event_final false 7)
        []
        (event_action two_at_once no_header client answer)
        (r.0))
dispatch_event-Settled_example =
    dispatch_event-Settled two_at_once all_of two_at_once-Appends no_header client [] no_env
      (event_command parent) refl

-- A renderer whose tool gives up, and then the native one.
abbrev rendering : Rendering ℕ
rendering = record {
  observations =
      dispatched (codes "bat") 0
      ∷ child_start
      ∷ child_exit
      ∷ dispatched (codes "bat") 250
      ∷ dispatched (codes "native") 0
      ∷ [];
  failure = none;
  terminal = false;
  duration_us = 11000000;
}

report_preview-validate_preview_example : All Accepted ((report_preview (codes "eA==") rendering).1)
unfolding snapshot_invalid observe_all bytes_eq
report_preview-validate_preview_example =
    report_preview-validate_preview (codes "eA==") rendering refl refl (omega arith) (
      (refl, refl, omega arith),
      (tt, (tt, ((refl, refl, omega arith), ((refl, refl, omega arith), tt)))),
    )

fallback_named :
    map (λ q. q.renderer) ((report_preview (codes "eA==") rendering).1)
    ≡ codes "bat" ∷ codes "bat-fallback" ∷ []
unfolding report_preview bytes_eq
fallback_named = refl
