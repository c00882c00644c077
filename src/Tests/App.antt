-- ===== src/Tests/App.antt =====
-- The enrichment coordinator at concrete steps.
use shell_picker.Base.{
  ◌≡◌, ◌≤◌, refl, true, false, none, some, List, [], ◌∷◌, codes, bytes_eq, is_some,
}
use shell_picker.Protocol.Types.{Event, no_effect, forward}
use shell_picker.Candidate.Entry.{no_metrics}
use shell_picker.Session.Actor.State.{TransitionResult, new_actor}
use shell_picker.App.Failure.{plain, join_lifecycle_errors}
use shell_picker.App.Enrichment.State.{Enrichment, World, new_enrichment, deactivate_locked}
use shell_picker.App.Enrichment.Trace.{one_of, emit_source_terminal, source_terminal}
use shell_picker.App.Enrichment.Trace.Ended.{unsettled, successes, emit_source_terminal-IsEnded}
use shell_picker.App.Enrichment.Event.{reserve_event, resolve_event, resolve_effect}
use shell_picker.App.Enrichment.Load.{finalize_event, begin_load, finalize_load}
use shell_picker.App.Enrichment.Lifecycle.{activate}
use shell_picker.App.Enrichment.Run.{
  Call, reserve, resolve, acknowledge, load, loaded, activated_at, step, run,
}
use shell_picker.App.Enrichment.Serial.{IsSerial, run-new_enrichment-IsSerial}
use shell_picker.App.Enrichment.Phase.{Move, phase, step-refines}
use shell_picker.App.Enrichment.Loads.{accepted_loads, accepted_loads_le_one}

abbrev calm : World
calm = record { parent_cause = none; fresh = 100; later = 101 }

abbrev key : Event
key = record { opcode = forward; key = []; query = []; current_item = [] }

abbrev reloaded : TransitionResult
reloaded = record {
  snapshot = new_actor.current;
  effect = record no_effect { reload_generation = 2 };
  sources = no_metrics;
}

-- A navigation: the event, its action, its load, asked for twice, and the end of the load.
abbrev navigation : List (World × Call)
navigation =
    (calm, activated_at 1)
    ∷ (calm, reserve)
    ∷ (calm, resolve key 1 reloaded none)
    ∷ (calm, acknowledge (record { event_id = 1; applied = true }))
    ∷ (calm, load (record { generation = 2; event_id = 1 }))
    ∷ (calm, load (record { generation = 2; event_id = 1 }))
    ∷ (calm, loaded (record { event_id = 1; applied = true }))
    ∷ []

-- The first load is accepted, and the gate is free at the end.
navigation_loads : accepted_loads 1 navigation new_enrichment ≡ 1
unfolding new_enrichment step activate reserve_event resolve_event resolve_effect deactivate_locked
    finalize_event begin_load finalize_load join_lifecycle_errors
navigation_loads = refl

accepted_loads_le_one_example : accepted_loads 1 navigation new_enrichment ≤ 1
accepted_loads_le_one_example = accepted_loads_le_one 1 navigation

run-new_enrichment-IsSerial_example : IsSerial (run navigation new_enrichment)
run-new_enrichment-IsSerial_example = run-new_enrichment-IsSerial navigation

abbrev opening : List (World × Call)
opening = (calm, activated_at 1) ∷ (calm, reserve) ∷ []

step-refines_example :
    Move
      (run opening new_enrichment).terminal
      (resolve key 1 reloaded none)
      (phase (run opening new_enrichment))
      (phase (step calm (resolve key 1 reloaded none) (run opening new_enrichment)))
step-refines_example =
    step-refines calm (resolve key 1 reloaded none) (run opening new_enrichment)
      (run-new_enrichment-IsSerial opening)

abbrev ended : Enrichment
ended = record new_enrichment { source_err = some (plain 50); initial_generation = 1 }

emit_source_terminal-IsEnded_example :
    (one_of unsettled (source_terminal calm ended).source.zoxide_outcome ≡ false)
    × (is_some ended.source_err ≡ true
        → one_of successes (source_terminal calm ended).source.zoxide_outcome ≡ false)
    × (1 ≤ (source_terminal calm ended).generation)
    × (bytes_eq (source_terminal calm ended).lifecycle (codes "published") ≡ false
        → (source_terminal calm ended).candidates ≡ 0)
unfolding emit_source_terminal new_enrichment
emit_source_terminal-IsEnded_example =
    emit_source_terminal-IsEnded calm ended (source_terminal calm ended) refl
