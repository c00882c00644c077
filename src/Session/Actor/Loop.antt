-- ===== src/Session/Actor/Loop.antt =====
-- internal/session/actor.go: the completion of a build, the reads, the shutdown and the loop.
use shell_picker.Base.{
  ℕ, Bool, true, false, not, ◌==◌, if◌then◌else◌, Option, none, some, List, [], ◌∷◌, ◌++◌, Result,
  ok, err,
}
use shell_picker.Candidate.Entry.{Record, BuildResult}
use shell_picker.Session.State.{Snapshot, Error, closed, stale_generation, unknown_record}
use shell_picker.Session.Records.{own_record_set, lookup_record}
use shell_picker.Session.Actor.State.{
  ApplyCommand, Pending, Actor, World, Input, apply, enrich, current_of, current_state_of,
  snapshot_of, resolve_of, completion, close, caller_done, session_done, Output, apply_result,
  snapshot_reply, state_reply, record_reply, close_done, build_cancelled,
}
use shell_picker.Session.Actor.Apply.{
  Step, reply_apply_error, refuse, unless_cause, start, on_apply, on_enrich,
}

abbrev read_by {ℓ} : {A : Type ℓ} → Option Error → Option Error → Result Error A → Result Error A
read_by (some e) cause v = err e
read_by none (some e) v = err e
read_by none none v = v

-- A read is refused after shutdown and when its caller is gone.
unfoldable pub read_reply {ℓ} : {A : Type ℓ} → World → Actor → ℕ → Result Error A → Result Error A
read_reply w a ctx value = read_by a.shutdown_err (w.caller_cause ctx) value

abbrev found : Option Record → Result Error Record
found none = err unknown_record
found (some r) = ok r

-- The completion is published: the snapshot, and the effect that loads its generation.
unfoldable pub publish : Actor → Pending → BuildResult → Step
publish a p result =
    let proposal = p.command.proposal in
    let current : Snapshot = record {
      generation = p.id;
      state = proposal.state;
      records = some (own_record_set result.records);
    } in
    (
      record a { current = current },
      apply_result p.command.reply (record {
        snapshot = current;
        effect = record (proposal.effect) { reload_generation = p.id };
        sources = result.metrics;
      })
          ∷ [],
    )

abbrev settle_pending : World → Actor → Pending → BuildResult → Option Error → Step
settle_pending w a p result failure =
    unless_cause (w.caller_cause p.command.ctx)
      (unless_cause w.session_cause
        (unless_cause failure
          (if not (p.command.proposal.base_generation == a.current.generation)
            then refuse a w p.command stale_generation
            else publish a p result)
          (refuse a w p.command))
        (refuse a w p.command))
      (refuse a w p.command)

abbrev or_closed : Option Error → Error
or_closed none = closed
or_closed (some e) = e

-- The reply to the pending transition. A retiring one always has its error.
unfoldable pub reply_pending : World → Actor → Pending → BuildResult → Option Error → Step
reply_pending w a p result failure =
    if p.retiring
    then (a, reply_apply_error w p.command (or_closed p.reply_err))
    else settle_pending w a p result failure

abbrev is_running : Option Error → Bool
is_running none = true
is_running (some e) = false

abbrev pub after : List Output → Step → Step
after out (a, more) = (a, out ++ more)

abbrev pub start_replacement : Bool → World → Actor → Option ApplyCommand → Step
start_replacement generator later a none = (a, [])
start_replacement generator later a (some c) =
    if is_running a.shutdown_err
    then start generator later (record a { replacement = none }) c
    else (a, [])

-- After a completion nothing is pending, and a waiting command starts.
unfoldable pub start_next : Bool → World → Actor → Step
start_next generator later a =
    start_replacement generator later (record a { pending = none }) a.replacement

abbrev pub complete : Bool → World → World → Actor → Pending → BuildResult → Option Error → Step
complete generator w later a p result failure =
    let (b, out) = reply_pending w a p result failure in
    after (build_cancelled p.id none ∷ out) (start_next generator later b)

abbrev pub complete_if :
    Bool → World → World → Actor → ℕ → BuildResult → Option Error → Option Pending → Step
complete_if generator w later a id result failure none = (a, [])
complete_if generator w later a id result failure (some p) =
    if not (id == p.id) then (a, []) else complete generator w later a p result failure

-- The case of a completionCommand: one with another id is ignored.
unfoldable pub on_completion : Bool → World → World → Actor → ℕ → BuildResult → Option Error → Step
on_completion generator w later a id result failure =
    complete_if generator w later a id result failure a.pending

abbrev retire : Actor → Error → Option Pending → Step
retire a e none = (a, [])
retire a e (some p) = if p.retiring then (a, []) else (
  record a { pending = some (record p { retiring = true; reply_err = some e }) },
  build_cancelled p.id (some e) ∷ [],
)

abbrev close_by : Actor → ℕ → Option ℕ → Step
close_by a reply (some r) = (a, close_done reply ∷ [])
close_by a reply none =
    retire
      (record a { close_reply = some reply; shutdown_err = some closed; session_armed = false })
      closed a.pending

-- The case of a closeCommand.
unfoldable pub on_close : Actor → ℕ → Step
on_close a reply = close_by a reply a.close_reply

-- `<-callerDone`: only a pending transition that is not retiring is watched.
abbrev caller_gone : World → Actor → Option Pending → Step
caller_gone w a none = (a, [])
caller_gone w a (some p) =
    unless_cause (w.caller_cause p.command.ctx) (a, []) (λ e. retire a e (some p))

unfoldable pub on_caller_done : World → Actor → Step
on_caller_done w a = caller_gone w a a.pending

-- `<-sessionDone`, which is received once.
unfoldable pub on_session_done : World → Actor → Step
on_session_done w a =
    if not a.session_armed
    then (a, [])
    else unless_cause w.session_cause (a, [])
        (λ e. retire (record a { shutdown_err = some e; session_armed = false }) e a.pending)

unfoldable pub handle : Bool → World → World → Actor → Input → Step
unfolding on_apply on_enrich read_reply on_completion on_close on_caller_done on_session_done
handle generator w later a (apply c) = on_apply generator w later a c
handle generator w later a (enrich c) = on_enrich w a c
handle generator w later a (current_of ctx reply) =
    (a, snapshot_reply reply (read_reply w a ctx (ok a.current)) ∷ [])
handle generator w later a (current_state_of ctx reply) =
    (a, state_reply reply (read_reply w a ctx (ok a.current.state)) ∷ [])
handle generator w later a (snapshot_of ctx generation reply) = (
  a,
  snapshot_reply reply (
        read_reply w a ctx
          (if not (generation == a.current.generation) then err stale_generation else ok a.current))
      ∷ [],
)
handle generator w later a (resolve_of ctx key reply) =
    (a, record_reply reply (read_reply w a ctx (found (lookup_record a.current key))) ∷ [])
handle generator w later a (completion id result failure) =
    on_completion generator w later a id result failure
handle generator w later a (close reply) = on_close a reply
handle generator w later a caller_done = on_caller_done w a
handle generator w later a session_done = on_session_done w a

abbrev refuse_replacement : World → Error → Option ApplyCommand → List Output
refuse_replacement w e none = []
refuse_replacement w e (some c) = reply_apply_error w c e

abbrev close_reply_of : Option ℕ → List Output
close_reply_of none = []
close_reply_of (some r) = close_done r ∷ []

abbrev finish_by : World → Actor → Option Pending → Option Error → Step
finish_by w a none (some e) = (
  record a { replacement = none; final_err = some e; finished = true },
  refuse_replacement w e a.replacement ++ close_reply_of a.close_reply,
)
finish_by w a _ _ = (a, [])

-- The head of the loop: after shutdown it ends once nothing is pending.
unfoldable pub loop_head : World → Actor → Step
loop_head w a = finish_by w a a.pending a.shutdown_err

-- One round: a message is handled, and the loop comes back to its head. The loop's first pass
-- through its head does nothing, and an actor that has ended receives no message.
unfoldable pub step : Bool → World → World → Actor → Input → Step
unfolding handle loop_head
step generator w later a input =
    if a.finished
    then (a, [])
    else let (b, out) = handle generator w later a input in after out (loop_head later b)

pub record Round : Type 0 where
  pub world : World
  pub later : World
  pub input : Input

-- The rounds in order, with all their outputs.
unfoldable pub run : Bool → Actor → List Round → Step
run generator a [] = (a, [])
run generator a (r ∷ rs) =
    let (b, out) = step generator r.world r.later a r.input in after out (run generator b rs)
