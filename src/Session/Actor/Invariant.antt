-- ===== src/Session/Actor/Invariant.antt =====
-- What holds of the actor between two rounds (internal/session/actor.go).
use shell_picker.Base.{
  ℕ, ◌≤◌, ◌<◌, ◌≡◌, ◌⊎◌, refl, if◌then◌else◌, Bool, true, false, not, ◌&&◌, ◌||◌, Option, none,
  some, List, [], ◌∷◌, arith, is_some,
}
use shell_picker.Session.State.{Error}
use shell_picker.Candidate.Entry.{BuildResult}
use shell_picker.Session.Actor.State.{
  ApplyCommand, EnrichCommand, Pending, Actor, World, Input, apply, enrich, completion, close,
  caller_done, session_done, new_actor, max_uint64,
}
use shell_picker.Session.Actor.Apply.{
  Step, start_build, commit_state, start, on_apply, commit_enrich, on_enrich,
}
use shell_picker.Session.Actor.Loop.{
  publish, reply_pending, start_replacement, start_next, complete, complete_if, on_completion,
  on_close, on_caller_done, on_session_done, handle, loop_head, step, Round, run,
}

abbrev pub is_retiring : Option Pending → Bool
is_retiring none = false
is_retiring (some p) = p.retiring

-- The pending transition builds the newest generation, above the current one. It is retiring with
-- an error, or it may still be published: nothing shuts down and its base is current.
abbrev pub PendingOk : Actor → Option Pending → Type 0
PendingOk a none = Unit
PendingOk a (some p) =
    (a.current.generation < p.id)
    × (p.id ≡ a.next_id)
    × (p.retiring ≡ true → is_some p.reply_err ≡ true)
    × (p.retiring ≡ false
        → (is_some a.shutdown_err ≡ false)
          × (p.command.proposal.base_generation ≡ a.current.generation))

-- A command waits only behind a retiring transition, or for the loop's head to refuse it.
abbrev pub may_wait : Actor → Bool
may_wait a = is_retiring a.pending || (not (is_some a.pending) && is_some a.shutdown_err)

abbrev pub ReplacementOk : Actor → Option ApplyCommand → Type 0
ReplacementOk a none = Unit
ReplacementOk a (some c) = (may_wait a ≡ true) × (c.proposal.base_generation ≡ a.current.generation)

pub record IsValid (a : Actor) : Type 0 where
  pub generation_le : a.current.generation ≤ a.next_id
  pub next_le : a.next_id ≤ max_uint64
  pub pending_ok : PendingOk a a.pending
  pub replacement_ok : ReplacementOk a a.replacement
  pub shutdown_armed : a.session_armed ≡ true → is_some a.shutdown_err ≡ false
  pub running : a.finished ≡ false → is_some a.final_err ≡ false
  pub ended :
      a.finished ≡ true
      → (is_some a.pending ≡ false)
        × (is_some a.replacement ≡ false)
        × (is_some a.shutdown_err ≡ true)

pub new_actor-IsValid : IsValid new_actor
unfolding new_actor
new_actor-IsValid = ground arith

start-IsValid :
    (g : Bool) (w : World) (a : Actor) (c : ApplyCommand)
    → IsValid a
    → is_some a.pending ≡ false
    → is_some a.shutdown_err ≡ false
    → a.finished ≡ false
    → IsValid (start g w a c).0
unfolding start start_build commit_state
start-IsValid g w a c v idle up running = ground arith

on_apply-IsValid :
    (g : Bool) (w later : World) (a : Actor) (c : ApplyCommand)
    → IsValid a
    → a.finished ≡ false
    → IsValid (on_apply g w later a c).0
unfolding on_apply
on_apply-IsValid g w later a c v running = ground (arith, start-IsValid g later a c)

on_enrich-IsValid :
    (w : World) (a : Actor) (c : EnrichCommand) → IsValid a → IsValid (on_enrich w a c).0
unfolding on_enrich commit_enrich
on_enrich-IsValid w a c v = ground arith

on_close-IsValid :
    (a : Actor) (reply : ℕ) → IsValid a → a.finished ≡ false → IsValid (on_close a reply).0
unfolding on_close
on_close-IsValid a reply v running = ground arith

on_caller_done-IsValid : (w : World) (a : Actor) → IsValid a → IsValid (on_caller_done w a).0
unfolding on_caller_done
on_caller_done-IsValid w a v = ground arith

on_session_done-IsValid :
    (w : World) (a : Actor) → IsValid a → a.finished ≡ false → IsValid (on_session_done w a).0
unfolding on_session_done
on_session_done-IsValid w a v running = ground arith

loop_head-IsValid : (w : World) (a : Actor) → IsValid a → IsValid (loop_head w a).0
unfolding loop_head
loop_head-IsValid w a v = ground arith

-- Publishing changes the current snapshot alone, and a retiring transition is never published.
pub reply_pending-keeps :
    (w : World) (a : Actor) (p : Pending) (result : BuildResult) (failure : Option Error)
    → let b = (reply_pending w a p result failure).0 in
      (b ≡ record a { current = b.current })
      × ((b.current ≡ a.current) ⊎ ((p.retiring ≡ false) × (b.current.generation ≡ p.id)))
unfolding reply_pending publish
reply_pending-keeps w a p result failure = ground arith

-- The base of a waiting command is current.
abbrev CurrentBase : Actor → Option ApplyCommand → Type 0
CurrentBase a none = Unit
CurrentBase a (some c) = c.proposal.base_generation ≡ a.current.generation

start_replacement-IsValid :
    (g : Bool) (later : World) (a : Actor) (r : Option ApplyCommand)
    → IsValid (record a { replacement = none })
    → CurrentBase a r
    → a.finished ≡ false
    → is_some a.pending ≡ false
    → a.replacement ≡ r
    → IsValid (start_replacement g later a r).0
start_replacement-IsValid g later a none v base running idle e = ground arith
start_replacement-IsValid g later a (some c) v base running idle e =
    ground (arith, start-IsValid g later (record a { replacement = none }) c)

-- Once the pending transition is answered the actor is valid without it.
unpend-IsValid :
    (a b : Actor) (p : Pending)
    → IsValid a
    → a.finished ≡ false
    → a.pending ≡ some p
    → b ≡ record a { current = b.current }
    → (b.current ≡ a.current) ⊎ ((p.retiring ≡ false) × (b.current.generation ≡ p.id))
    → IsValid (record b { pending = none; replacement = none })
      × CurrentBase b b.replacement
      × (b.finished ≡ false)
unpend-IsValid a b p v running e keeps changed = ground arith

complete-IsValid :
    (g : Bool) (w later : World) (a : Actor) (p : Pending) (result : BuildResult)
    (failure : Option Error)
    → IsValid a
    → a.finished ≡ false
    → a.pending ≡ some p
    → IsValid (complete g w later a p result failure).0
unfolding start_next
complete-IsValid g w later a p result failure v running e =
    let b = (reply_pending w a p result failure).0 in
    let k = reply_pending-keeps w a p result failure in
    let u = unpend-IsValid a b p v running e k.0 k.1 in
    start_replacement-IsValid g later (record b { pending = none }) b.replacement u.0 u.1 u.2 refl
      refl

complete_if-IsValid :
    (g : Bool) (w later : World) (a : Actor) (id : ℕ) (result : BuildResult)
    (failure : Option Error) (p : Option Pending)
    → IsValid a
    → a.finished ≡ false
    → a.pending ≡ p
    → IsValid (complete_if g w later a id result failure p).0
complete_if-IsValid g w later a id result failure none v running e = v
complete_if-IsValid g w later a id result failure (some p) v running e =
    ground (arith, complete-IsValid g w later a p result failure)

handle-IsValid :
    (g : Bool) (w later : World) (a : Actor) (i : Input)
    → IsValid a
    → a.finished ≡ false
    → IsValid (handle g w later a i).0
unfolding handle on_completion
handle-IsValid g w later a (apply c) v r = on_apply-IsValid g w later a c v r
handle-IsValid g w later a (enrich c) v r = on_enrich-IsValid w a c v
handle-IsValid g w later a (completion id result e) v r =
    complete_if-IsValid g w later a id result e a.pending v r refl
handle-IsValid g w later a (close reply) v r = on_close-IsValid a reply v r
handle-IsValid g w later a caller_done v r = on_caller_done-IsValid w a v
handle-IsValid g w later a session_done v r = on_session_done-IsValid w a v r
handle-IsValid g w later a _ v r = v

if-IsValid :
    (b : Bool) (x y : Step)
    → (b ≡ true → IsValid x.0)
    → (b ≡ false → IsValid y.0)
    → IsValid (if b then x else y).0
if-IsValid true x y h k = h refl
if-IsValid false x y h k = k refl

-- Every round keeps the actor valid: the generations are ordered and below 2^64, a pending
-- transition builds the newest one, a command waits only behind a retiring transition, and an actor
-- that has ended holds nothing.
pub step-IsValid :
    (g : Bool) (w later : World) (a : Actor) (i : Input)
    → IsValid a
    → IsValid (step g w later a i).0
unfolding step
step-IsValid g w later a i v =
    if-IsValid a.finished _ _ (λ _. v)
      (λ e. loop_head-IsValid later (handle g w later a i).0 (handle-IsValid g w later a i v e))

run-IsValid : (g : Bool) (a : Actor) (rs : List Round) → IsValid a → IsValid (run g a rs).0
unfolding run
run-IsValid g a [] v = v
run-IsValid g a (r ∷ rs) v =
    run-IsValid g (step g r.world r.later a r.input).0 rs
      (step-IsValid g r.world r.later a r.input v)

-- After any rounds of a new actor its variables are consistent: a pending transition builds the newest
-- generation and is retiring with an error or may still be published, a command waits only behind a
-- retiring transition or for its refusal, generations stay in 64 bits, and an actor that has ended
-- holds nothing.
pub run-new_actor-IsValid : (g : Bool) (rs : List Round) → IsValid (run g new_actor rs).0
run-new_actor-IsValid g rs = run-IsValid g new_actor rs new_actor-IsValid
