-- ===== src/Session/Actor/Progress.antt =====
-- What the actor publishes, refuses and brings to an end (internal/session/actor.go).
use shell_picker.Base.{
  ℕ, ◌≤◌, ◌≡◌, refl, Bool, true, false, Option, none, some, List, [], ◌∷◌, arith, is_some,
}
use shell_picker.Session.State.{Error, Snapshot}
use shell_picker.Session.Records.{own_record_set}
use shell_picker.Candidate.Entry.{BuildResult}
use shell_picker.Session.Actor.State.{
  Pending, Actor, World, Input, apply, enrich, completion, close, caller_done, session_done,
  new_actor, apply_result, build_cancelled,
}
use shell_picker.Session.Actor.Apply.{
  start_build, commit_state, start, on_apply, commit_enrich, on_enrich,
}
use shell_picker.Session.Actor.Loop.{
  publish, reply_pending, start_next, on_completion, on_close, on_caller_done, on_session_done,
  handle, loop_head, step, Round, run,
}
use shell_picker.Session.Actor.Invariant.{IsValid, reply_pending-keeps, run-new_actor-IsValid}
use shell_picker.Session.Actor.Replies.{held, answers, all_received, run-answers_once}

held-ended : (caller : ℕ) (a : Actor) → IsValid a → a.finished ≡ true → held caller a ≡ 0
held-ended caller a v e = ground arith

-- When the loop of a new actor has ended, every transition that a caller asked for until then has
-- been answered, and just once.
pub ended-answers :
    (caller : ℕ) (g : Bool) (rs : List Round)
    → (run g new_actor rs).0.finished ≡ true
    → answers caller (run g new_actor rs).1 ≡ all_received caller g new_actor rs
ended-answers caller g rs e = omega (
  arith,
  run-answers_once caller g rs,
  held-ended caller (run g new_actor rs).0 (run-new_actor-IsValid g rs) e,
)

-- When the build of a valid actor's pending transition, which is not retiring, ends without an
-- error, and neither its caller nor the session is cancelled, it is published: its generation becomes
-- the current one, with the proposed state and the built records, and it is what the caller gets.
pub completion-publishes :
    (g : Bool) (w later : World) (a : Actor) (p : Pending) (result : BuildResult)
    → IsValid a
    → a.pending ≡ some p
    → p.retiring ≡ false
    → w.caller_cause p.command.ctx ≡ none
    → w.session_cause ≡ none
    → let (b, out) = step g w later a (completion p.id result none) in
      let current : Snapshot = record {
        generation = p.id;
        state = p.command.proposal.state;
        records = some (own_record_set result.records);
      } in
      (b.current ≡ current)
      × (b.pending ≡ none)
      × (out
          ≡ build_cancelled p.id none
            ∷ apply_result p.command.reply (record {
              snapshot = current;
              effect = record (p.command.proposal.effect) { reload_generation = p.id };
              sources = result.metrics;
            })
            ∷ [])
unfolding step on_completion reply_pending publish start_next
completion-publishes g w later a p result v e keep caller session =
    (ground arith, ground arith, ground arith)

frozen :
    (g : Bool) (w later : World) (a : Actor) (i : Input)
    → IsValid a
    → is_some a.shutdown_err ≡ true
    → (handle g w later a i).0.current ≡ a.current
unfolding handle on_apply on_enrich commit_enrich on_completion reply_pending start_next on_close
    on_caller_done on_session_done
frozen g w later a (apply c) v down = ground arith
frozen g w later a (enrich c) v down = ground arith
frozen g w later a (completion id result e) v down = ground arith
frozen g w later a (close reply) v down = ground arith
frozen g w later a caller_done v down = ground arith
frozen g w later a session_done v down = ground arith
frozen g w later a _ v down = refl

-- Once a shutdown of a valid actor has begun, no round changes the current snapshot.
pub shutdown-freezes :
    (g : Bool) (w later : World) (a : Actor) (i : Input)
    → IsValid a
    → is_some a.shutdown_err ≡ true
    → (step g w later a i).0.current ≡ a.current
unfolding step loop_head
shutdown-freezes g w later a i v down = ground (arith, frozen g w later a i v down)

-- When a valid actor is shut down while a transition is pending, the completion of that transition
-- ends the loop, whatever its result.
pub shutdown-ends :
    (g : Bool) (w later : World) (a : Actor) (p : Pending) (result : BuildResult)
    (failure : Option Error)
    → IsValid a
    → is_some a.shutdown_err ≡ true
    → a.pending ≡ some p
    → (step g w later a (completion p.id result failure)).0.finished ≡ true
unfolding step loop_head on_completion start_next
shutdown-ends g w later a p result failure v down e =
    ground (arith, reply_pending-keeps w a p result failure)

handle-generation_le :
    (g : Bool) (w later : World) (a : Actor) (i : Input)
    → IsValid a
    → a.current.generation ≤ (handle g w later a i).0.current.generation
unfolding handle on_apply on_enrich commit_enrich on_completion reply_pending publish start_next
    on_close on_caller_done on_session_done start start_build commit_state
handle-generation_le g w later a (apply c) v = ground arith
handle-generation_le g w later a (enrich c) v = ground arith
handle-generation_le g w later a (completion id result e) v = ground arith
handle-generation_le g w later a (close reply) v = ground arith
handle-generation_le g w later a caller_done v = ground arith
handle-generation_le g w later a session_done v = ground arith
handle-generation_le g w later a _ v = omega arith

-- No round of a valid actor lowers the current generation.
pub step-generation_le :
    (g : Bool) (w later : World) (a : Actor) (i : Input)
    → IsValid a
    → a.current.generation ≤ (step g w later a i).0.current.generation
unfolding step loop_head
step-generation_le g w later a i v = ground (arith, handle-generation_le g w later a i v)
