-- ===== src/Tests/Actor.antt =====
-- The session actor at concrete rounds.
use shell_picker.Base.{
  ℕ, ◌≡◌, ◌≢◌, ◌+◌, refl, true, false, none, some, List, [], ◌∷◌, arith, is_some, ◌⊎◌, ◌≤◌,
}
use shell_picker.Protocol.Types.{cd, no_effect}
use shell_picker.Pathutil.Location.{root}
use shell_picker.Candidate.Entry.{BuildRequest, BuildResult, no_metrics}
use shell_picker.Session.State.{no_state, Snapshot, ProposedTransition, superseded}
use shell_picker.Session.Records.{own_record_set}
use shell_picker.Session.Actor.State.{
  ApplyCommand, Pending, Actor, World, Input, apply, completion, close, new_actor, apply_result,
  build_cancelled,
}
use shell_picker.Session.Actor.Loop.{step, Round, run, reply_pending, publish, start_next}
use shell_picker.Session.Actor.Apply.{start, start_build, commit_state}
use shell_picker.Session.Actor.Invariant.{IsValid, run-new_actor-IsValid}
use shell_picker.Session.Actor.Replies.{held, answers, all_received, run-answers_once}
use shell_picker.Session.Actor.Progress.{
  ended-answers, completion-publishes, shutdown-freezes, step-generation_le,
}
use shell_picker.Session.Actor.Current.{Changes, step-Changes}

abbrev calm : World
calm = record { caller_cause = λ c. none; session_cause = none; cleanup = λ t. none }

abbrev request : BuildRequest
request = record { generation = 0; picker = cd; location = root; stat_workers = 0; initial = false }

abbrev proposal : ProposedTransition
proposal = record {
  base_generation = 0;
  state = no_state;
  build = some request;
  effect = no_effect;
  created = none;
}

abbrev command : ℕ → ApplyCommand
command reply = record { ctx = 1; proposal = proposal; reply = reply }

abbrev built : BuildResult
built = record { records = []; zoxide_discarded = false; metrics = no_metrics }

abbrev round : Input → Round
round i = record { world = calm; later = calm; input = i }

-- A transition, a second one that supersedes it, and a shutdown before the build ends.
abbrev opening : List Round
opening = round (apply (command 7)) ∷ []

abbrev closing : List Round
closing = round (apply (command 7)) ∷ round (apply (command 8)) ∷ round (close 9) ∷ []

abbrev whole : List Round
whole =
    round (apply (command 7))
    ∷ round (apply (command 8))
    ∷ round (close 9)
    ∷ round (completion 1 built none)
    ∷ []

whole_ends : (run true new_actor whole).0.finished ≡ true
unfolding run step new_actor start_build start commit_state reply_pending publish start_next
whole_ends = refl

ended-answers_example : answers 7 (run true new_actor whole).1 ≡ all_received 7 true new_actor whole
ended-answers_example = ended-answers 7 true whole whole_ends

run-new_actor-IsValid_example : IsValid (run true new_actor whole).0
run-new_actor-IsValid_example = run-new_actor-IsValid true whole

run-answers_once_example :
    held 8 (run true new_actor closing).0 + answers 8 (run true new_actor closing).1
    ≡ all_received 8 true new_actor closing
run-answers_once_example = run-answers_once 8 true closing

abbrev opened : Actor
opened = (run true new_actor opening).0

abbrev pending : Pending
pending = record { id = 1; command = command 7; retiring = false; reply_err = none }

opened_pending : opened.pending ≡ some pending
unfolding run step new_actor start start_build commit_state
opened_pending = refl

opened-IsValid : IsValid opened
opened-IsValid = run-new_actor-IsValid true opening

completion-publishes_example :
    let (b, out) = step true calm calm opened (completion 1 built none) in
    let current : Snapshot = record {
      generation = 1;
      state = no_state;
      records = some (own_record_set []);
    } in
    (b.current ≡ current)
    × (b.pending ≡ none)
    × (out
        ≡ build_cancelled 1 none
          ∷ apply_result 7 (record {
            snapshot = current;
            effect = record (no_effect) { reload_generation = 1 };
            sources = no_metrics;
          })
          ∷ [])
completion-publishes_example =
    completion-publishes true calm calm opened pending built opened-IsValid opened_pending refl refl
      refl

abbrev shut : Actor
shut = (run true new_actor closing).0

shut_down : is_some shut.shutdown_err ≡ true
unfolding run step new_actor start start_build commit_state
shut_down = refl

abbrev retired : Pending
retired = record { id = 1; command = command 7; retiring = true; reply_err = some superseded }

shut_pending : shut.pending ≡ some retired
unfolding run step new_actor start start_build commit_state
shut_pending = refl

shutdown-freezes_example :
    (step true calm calm shut (completion 1 built none)).0.current ≡ shut.current
shutdown-freezes_example =
    shutdown-freezes true calm calm shut (completion 1 built none)
      (run-new_actor-IsValid true closing) shut_down

-- A transition from generation 5, which is not the current one.
abbrev late : ApplyCommand
late = record (command 7) { proposal = record (proposal) { base_generation = 5 } }

new_running :
    (new_actor.finished ≡ false)
    × (new_actor.shutdown_err ≡ none)
    × (5 ≢ new_actor.current.generation)
unfolding new_actor
new_running = (refl, refl, ground arith)

step-Changes_example :
    let s = (step true calm calm opened (completion 1 built none)).0.current in
    (s ≡ opened.current) ⊎ Changes opened s (completion 1 built none)
step-Changes_example = step-Changes true calm calm opened (completion 1 built none) opened-IsValid

step-generation_le_example :
    opened.current.generation
    ≤ (step true calm calm opened (completion 1 built none)).0.current.generation
step-generation_le_example =
    step-generation_le true calm calm opened (completion 1 built none) opened-IsValid
