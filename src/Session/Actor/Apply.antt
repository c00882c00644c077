-- ===== src/Session/Actor/Apply.antt =====
-- internal/session/actor.go: the commands that change the session, `start` included.
use shell_picker.Base.{
  ◌+◌, Bool, true, false, not, ◌==◌, if◌then◌else◌, Option, none, some, List, [], ◌∷◌,
}
use shell_picker.Protocol.Types.{no_effect}
use shell_picker.Candidate.Entry.{BuildRequest, no_metrics}
use shell_picker.Session.State.{
  Error, superseded, stale_generation, transition_pending, nil_generator, generation_limit,
}
use shell_picker.Session.Records.{own_record_set}
use shell_picker.Session.Actor.State.{
  ApplyCommand, EnrichCommand, Pending, Actor, World, Output, apply_result, apply_error, cleaned,
  enrich_result, enrich_error, build_started, build_cancelled, max_uint64,
}

abbrev pub Step : Type 0
Step = Actor × List Output

-- `replyApplyError`: the proposal's tree is cleaned up before the reply.
unfoldable pub reply_apply_error : World → ApplyCommand → Error → List Output
reply_apply_error w c e =
    let tree = c.proposal.created in cleaned tree ∷ apply_error c.reply e (w.cleanup tree) ∷ []

abbrev pub refuse : Actor → World → ApplyCommand → Error → Step
refuse a w c e = (a, reply_apply_error w c e)

-- `start` once a build is wanted: the generation is taken and the build is started.
unfoldable pub start_build : Bool → World → Actor → ApplyCommand → BuildRequest → Step
start_build generator w a c build =
    if not generator
    then refuse a w c nil_generator
    else if a.next_id == max_uint64
    then refuse a w c generation_limit
    else let id = a.next_id + 1 in
      (
        record a {
          next_id = id;
          pending = some (record { id = id; command = c; retiring = false; reply_err = none });
        },
        build_started id (record build { generation = id }) ∷ [],
      )

-- A proposal with no build changes the state of the current snapshot.
unfoldable pub commit_state : Actor → ApplyCommand → Step
commit_state a c =
    let current = record a.current { state = c.proposal.state } in
    (
      record a { current = current },
      apply_result c.reply
            (record { snapshot = current; effect = c.proposal.effect; sources = no_metrics })
          ∷ [],
    )

abbrev start_by : Bool → World → Actor → ApplyCommand → Option BuildRequest → Step
start_by generator w a c none = commit_state a c
start_by generator w a c (some build) = start_build generator w a c build

abbrev start_current : Bool → World → Actor → ApplyCommand → Step
start_current generator w a c =
    if not (c.proposal.base_generation == a.current.generation)
    then refuse a w c stale_generation
    else start_by generator w a c c.proposal.build

abbrev pub unless_cause : Option Error → Step → (Error → Step) → Step
unless_cause none s f = s
unless_cause (some e) s f = f e

-- `start`, with no transition pending.
unfoldable pub start : Bool → World → Actor → ApplyCommand → Step
start generator w a c =
    unless_cause (w.caller_cause c.ctx) (start_current generator w a c) (refuse a w c)

-- A second command retires the pending one and waits for its completion.
abbrev replace_pending : World → Actor → Pending → ApplyCommand → Step
replace_pending w a p c = (
  record a {
    pending = some (record p { retiring = true; reply_err = some superseded });
    replacement = some c;
  },
  build_cancelled p.id (some superseded) ∷ [],
)

abbrev is_some_command : Option ApplyCommand → Bool
is_some_command none = false
is_some_command (some c) = true

abbrev accept_apply : Bool → World → World → Actor → ApplyCommand → Option Pending → Step
accept_apply generator w later a c none = start generator later a c
accept_apply generator w later a c (some p) =
    if p.retiring
    then refuse a w c transition_pending
    else if is_some_command a.replacement
    then refuse a w c transition_pending
    else replace_pending w a p c

abbrev apply_current : Bool → World → World → Actor → ApplyCommand → Step
apply_current generator w later a c =
    if not (c.proposal.base_generation == a.current.generation)
    then refuse a w c stale_generation
    else accept_apply generator w later a c a.pending

-- The case of an applyCommand. The context is read again, in `later`, where a build starts.
unfoldable pub on_apply : Bool → World → World → Actor → ApplyCommand → Step
on_apply generator w later a c =
    unless_cause a.shutdown_err
      (unless_cause (w.caller_cause c.ctx) (apply_current generator w later a c) (refuse a w c))
      (refuse a w c)

abbrev refuse_enrich : Actor → EnrichCommand → Error → Step
refuse_enrich a c e = (a, enrich_error c.reply e ∷ [])

-- An enrichment publishes a new generation with the same state.
unfoldable pub commit_enrich : Actor → EnrichCommand → Step
commit_enrich a c =
    if a.next_id == max_uint64
    then refuse_enrich a c generation_limit
    else let id = a.next_id + 1 in
      let current = record a.current {
        generation = id;
        records = some (own_record_set c.records);
      } in
      (
        record a { next_id = id; current = current },
        enrich_result c.reply
              (record { snapshot = current; effect = no_effect; sources = c.sources })
            ∷ [],
      )

abbrev enrich_when_idle : Actor → EnrichCommand → Option Pending → Step
enrich_when_idle a c none = commit_enrich a c
enrich_when_idle a c (some p) = refuse_enrich a c transition_pending

abbrev enrich_current : Actor → EnrichCommand → Step
enrich_current a c =
    if not (c.base_generation == a.current.generation)
    then refuse_enrich a c stale_generation
    else enrich_when_idle a c a.pending

unfoldable pub on_enrich : World → Actor → EnrichCommand → Step
on_enrich w a c =
    unless_cause a.shutdown_err
      (unless_cause (w.caller_cause c.ctx)
        (unless_cause w.session_cause (enrich_current a c) (refuse_enrich a c)) (refuse_enrich a c))
      (refuse_enrich a c)
