-- ===== src/Session/Actor/Replies.antt =====
-- Every transition that is asked for is answered once (internal/session/actor.go).
use shell_picker.Base.{
  ℕ, ◌+◌, ◌≡◌, refl, Bool, ◌==◌, if◌then◌else◌, Option, none, some, List, [], ◌∷◌, ◌++◌, arith,
}
use shell_picker.Session.State.{Error}
use shell_picker.Candidate.Entry.{BuildResult}
use shell_picker.Session.Actor.State.{
  ApplyCommand, EnrichCommand, Pending, Actor, World, Input, apply, enrich, completion, close,
  caller_done, session_done, Output, apply_result, apply_error, new_actor,
}
use shell_picker.Session.Actor.Apply.{
  Step, reply_apply_error, start_build, commit_state, start, on_apply, commit_enrich, on_enrich,
}
use shell_picker.Session.Actor.Loop.{
  publish, reply_pending, start_replacement, start_next, complete, complete_if, on_completion,
  on_close, on_caller_done, on_session_done, handle, loop_head, step, Round, run,
}

module _ (caller : ℕ) where
  -- 1 if the command is the caller's.
  abbrev pub asks : ApplyCommand → ℕ
  asks c = if c.reply == caller then 1 else 0

  abbrev pub asks_if : Option ApplyCommand → ℕ
  asks_if none = 0
  asks_if (some c) = asks c

  abbrev pub asks_pending : Option Pending → ℕ
  asks_pending none = 0
  asks_pending (some p) = asks p.command

  -- The caller's transitions that the actor holds.
  abbrev pub held : Actor → ℕ
  held a = asks_pending a.pending + asks_if a.replacement

  abbrev pub answer : Output → ℕ
  answer (apply_result r t) = if r == caller then 1 else 0
  answer (apply_error r e j) = if r == caller then 1 else 0
  answer _ = 0

  -- The answers to the caller.
  abbrev pub answers : List Output → ℕ
  answers [] = 0
  answers (o ∷ os) = answer o + answers os

  pub answers-append : (xs ys : List Output) → answers (xs ++ ys) ≡ answers xs + answers ys
  answers-append [] ys = omega arith
  answers-append (x ∷ xs) ys = omega (arith, answers-append xs ys)

  abbrev pub asked : Input → ℕ
  asked (apply c) = asks c
  asked _ = 0

  -- Nothing is lost or answered twice.
  abbrev Balanced : ℕ → Step → Type 0
  Balanced n (a, out) = held a + answers out ≡ n

  start-Balanced :
      (g : Bool) (w : World) (a : Actor) (c : ApplyCommand)
      → a.pending ≡ none
      → Balanced (asks_if a.replacement + asks c) (start g w a c)
  unfolding start start_build commit_state reply_apply_error
  start-Balanced g w a c idle = ground arith

  on_apply-Balanced :
      (g : Bool) (w later : World) (a : Actor) (c : ApplyCommand)
      → Balanced (held a + asks c) (on_apply g w later a c)
  unfolding on_apply reply_apply_error
  on_apply-Balanced g w later a c = ground (arith, start-Balanced g later a c)

  reply_pending-answers :
      (w : World) (a : Actor) (p : Pending) (result : BuildResult) (failure : Option Error)
      → let (b, out) = reply_pending w a p result failure in
        (b.replacement ≡ a.replacement) × (answers out ≡ asks p.command)
  unfolding reply_pending publish reply_apply_error
  reply_pending-answers w a p result failure = ground arith

  start_replacement-Balanced :
      (g : Bool) (later : World) (a : Actor) (r : Option ApplyCommand)
      → a.pending ≡ none
      → a.replacement ≡ r
      → Balanced (asks_if r) (start_replacement g later a r)
  start_replacement-Balanced g later a none p q = ground arith
  start_replacement-Balanced g later a (some c) p q =
      ground (arith, start-Balanced g later (record a { replacement = none }) c)

  start_next-Balanced :
      (g : Bool) (later : World) (a : Actor)
      → Balanced (asks_if a.replacement) (start_next g later a)
  unfolding start_next
  start_next-Balanced g later a =
      start_replacement-Balanced g later (record a { pending = none }) a.replacement refl refl

  complete-Balanced :
      (g : Bool) (w later : World) (a : Actor) (p : Pending) (result : BuildResult)
      (failure : Option Error)
      → Balanced (asks p.command + asks_if a.replacement) (complete g w later a p result failure)
  complete-Balanced g w later a p result failure =
      let (b, out) = reply_pending w a p result failure in
      ground (
        arith,
        reply_pending-answers w a p result failure,
        start_next-Balanced g later b,
        answers-append out (start_next g later b).1,
      )

  complete_if-Balanced :
      (g : Bool) (w later : World) (a : Actor) (id : ℕ) (result : BuildResult)
      (failure : Option Error) (p : Option Pending)
      → a.pending ≡ p
      → Balanced (held a) (complete_if g w later a id result failure p)
  complete_if-Balanced g w later a id result failure none e = ground arith
  complete_if-Balanced g w later a id result failure (some p) e =
      ground (arith, complete-Balanced g w later a p result failure)

  on_completion-Balanced :
      (g : Bool) (w later : World) (a : Actor) (id : ℕ) (result : BuildResult)
      (failure : Option Error)
      → Balanced (held a) (on_completion g w later a id result failure)
  unfolding on_completion
  on_completion-Balanced g w later a id result failure =
      complete_if-Balanced g w later a id result failure a.pending refl

  on_enrich-answers :
      (w : World) (a : Actor) (c : EnrichCommand)
      → let (b, out) = on_enrich w a c in
        (b.pending ≡ a.pending) × (b.replacement ≡ a.replacement) × (answers out ≡ 0)
  unfolding on_enrich commit_enrich
  on_enrich-answers w a c = ground arith

  on_close-Balanced : (a : Actor) (reply : ℕ) → Balanced (held a) (on_close a reply)
  unfolding on_close
  on_close-Balanced a reply = ground arith

  on_caller_done-Balanced : (w : World) (a : Actor) → Balanced (held a) (on_caller_done w a)
  unfolding on_caller_done
  on_caller_done-Balanced w a = ground arith

  on_session_done-Balanced : (w : World) (a : Actor) → Balanced (held a) (on_session_done w a)
  unfolding on_session_done
  on_session_done-Balanced w a = ground arith

  loop_head-Balanced : (w : World) (a : Actor) → Balanced (held a) (loop_head w a)
  unfolding loop_head reply_apply_error
  loop_head-Balanced w a = ground arith

  handle-Balanced :
      (g : Bool) (w later : World) (a : Actor) (i : Input)
      → Balanced (held a + asked i) (handle g w later a i)
  unfolding handle
  handle-Balanced g w later a (apply c) = on_apply-Balanced g w later a c
  handle-Balanced g w later a (enrich c) = ground (arith, on_enrich-answers w a c)
  handle-Balanced g w later a (completion id r e) =
      omega (arith, on_completion-Balanced g w later a id r e)
  handle-Balanced g w later a (close r) = omega (arith, on_close-Balanced a r)
  handle-Balanced g w later a caller_done = omega (arith, on_caller_done-Balanced w a)
  handle-Balanced g w later a session_done = omega (arith, on_session_done-Balanced w a)
  handle-Balanced g w later a _ = omega arith

  abbrev pub received : Actor → Input → ℕ
  received a i = if a.finished then 0 else asked i

  step-Balanced :
      (g : Bool) (w later : World) (a : Actor) (i : Input)
      → Balanced (held a + received a i) (step g w later a i)
  unfolding step
  step-Balanced g w later a i =
      let (b, out) = handle g w later a i in
      ground (
        arith,
        handle-Balanced g w later a i,
        loop_head-Balanced later b,
        answers-append out (loop_head later b).1,
      )

  -- The caller's transitions that the actor receives in the rounds.
  pub all_received : Bool → Actor → List Round → ℕ
  all_received g a [] = 0
  all_received g a (r ∷ rs) =
      received a r.input + all_received g (step g r.world r.later a r.input).0 rs

  run-Balanced :
      (g : Bool) (a : Actor) (rs : List Round)
      → Balanced (held a + all_received g a rs) (run g a rs)
  unfolding run all_received
  run-Balanced g a [] = omega arith
  run-Balanced g a (r ∷ rs) =
      let (b, out) = step g r.world r.later a r.input in
      ground (
        arith,
        step-Balanced g r.world r.later a r.input,
        run-Balanced g b rs,
        answers-append out (run g b rs).1,
      )

  new-held : held new_actor ≡ 0
  unfolding new_actor
  new-held = refl

  -- Over any rounds of a new actor, each transition that a caller asks for is answered once or
  -- still held, and none is answered twice.
  pub run-answers_once :
      (g : Bool) (rs : List Round)
      → let (a, out) = run g new_actor rs in held a + answers out ≡ all_received g new_actor rs
  run-answers_once g rs = omega (arith, run-Balanced g new_actor rs, new-held)
