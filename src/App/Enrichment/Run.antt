-- ===== src/App/Enrichment/Run.antt =====
-- The steps of the coordinator (internal/app/enrichment*.go) in any order: goroutines take the gate
-- one after the other. What a goroutine does in two sections is two calls.
use shell_picker.Base.{ℕ, Bool, Option, List, [], ◌∷◌}
use shell_picker.Protocol.Types.{Event}
use shell_picker.Candidate.Entry.{SourceMetrics}
use shell_picker.Session.Actor.State.{TransitionResult}
use shell_picker.Sessionipc.Dto.{EventFinalizeRequest, LoadFinalizeRequest, LoadRequest}
use shell_picker.App.Failure.{Failure}
use shell_picker.App.Enrichment.State.{Enrichment, World, cancel_source}
use shell_picker.App.Enrichment.Event.{reserve_event, resolve_event}
use shell_picker.App.Enrichment.Load.{
  finalize_event, begin_load, finalize_load, fail_callback_application,
}
use shell_picker.App.Enrichment.Lifecycle.{
  stop, activate, finish_source, retain_interrupted_source_error, wait,
}
use shell_picker.App.Enrichment.Commit.{
  set_base_generation, begin_commit, abandon_commit, Published, decide_commit, finish_commit,
}
use shell_picker.App.Enrichment.Trace.{set_source_result, emit_source_terminal}

pub data Call : Type 0 where
  reserve : Call
  resolve : Event → ℕ → TransitionResult → Option Failure → Call
  acknowledge : EventFinalizeRequest → Call
  load : LoadRequest → Call
  loaded : LoadFinalizeRequest → Call
  application_failed : Call
  stopped : Option Failure → Call
  activated_at : ℕ → Call
  source_result : Bool → SourceMetrics → Option Failure → Call
  source_finished source_interrupted source_stopped : Option Failure → Call
  awaited : Call
  based_on : ℕ → Call
  commit_begun commit_abandoned : Call
  commit_decided commit_finished : Published → Option Failure → Call
  traced : Call

-- The coordinator after a step.
unfoldable pub step : World → Call → Enrichment → Enrichment
step w reserve e = (reserve_event w e).0
step w (resolve event id result failure) e = (resolve_event w event id result failure e).0
step w (acknowledge r) e = (finalize_event r e).0
step w (load r) e = (begin_load r e).0
step w (loaded r) e = (finalize_load r e).0
step w application_failed e = (fail_callback_application w e).0
step w (stopped cause) e = (stop w cause e).0
step w (activated_at generation) e = (activate w generation e).0
step w (source_result discarded metrics failure) e = set_source_result discarded metrics failure e
step w (source_finished failure) e = (finish_source w failure e).0
step w (source_interrupted failure) e = (retain_interrupted_source_error w failure e).0
step w (source_stopped cause) e = (cancel_source cause e).0
step w awaited e = (wait w e).0
step w (based_on generation) e = set_base_generation generation e
step w commit_begun e = (begin_commit e).0
step w commit_abandoned e = abandon_commit e
step w (commit_decided result terminal) e = decide_commit w result terminal e
step w (commit_finished result terminal) e = (finish_commit w result terminal e).0
step w traced e = (emit_source_terminal w e).0

unfoldable pub run : List (World × Call) → Enrichment → Enrichment
run [] e = e
run ((w, c) ∷ cs) e = run cs (step w c e)
