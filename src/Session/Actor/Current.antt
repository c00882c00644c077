-- ===== src/Session/Actor/Current.antt =====
-- On whose behalf the loop of internal/session/actor.go changes the current snapshot.
use shell_picker.Base.{
  ℕ, ◌+◌, ◌≡◌, ◌⊎◌, inl, inr, refl, subst, sym, Bool, false, Option, none, some, arith,
  Option-cases,
}
use shell_picker.Candidate.Entry.{BuildResult}
use shell_picker.Session.State.{Snapshot, Error}
use shell_picker.Session.Records.{own_record_set}
use shell_picker.Session.Actor.State.{
  Actor, Input, apply, enrich, completion, close, caller_done, session_done, ApplyCommand, World,
  Pending,
}
use shell_picker.Session.Actor.Apply.{
  on_apply, on_enrich, commit_enrich, start, start_build, commit_state,
}
use shell_picker.Session.Actor.Loop.{
  step, handle, loop_head, on_completion, reply_pending, publish, start_next, on_close,
  on_caller_done, on_session_done,
}
use shell_picker.Session.Actor.Invariant.{IsValid}

-- The command stands on the current generation, and the snapshot gets its state.
abbrev pub Restates : Actor → Snapshot → ApplyCommand → Type 0
Restates a s c =
    (c.proposal.base_generation ≡ a.current.generation)
    × (s ≡ record (a.current) { state = c.proposal.state })

-- The pending command stands on the current generation, and the snapshot is that of its build.
abbrev pub Publishes : Actor → Snapshot → ℕ → BuildResult → Pending → Type 0
Publishes a s id result p =
    (p.id ≡ id)
    × (p.retiring ≡ false)
    × (p.command.proposal.base_generation ≡ a.current.generation)
    × (s ≡ record {
      generation = id;
      state = p.command.proposal.state;
      records = some (own_record_set result.records);
    })

-- The ways in which an input may give the actor another current snapshot.
abbrev pub Changes : Actor → Snapshot → Input → Type 0
Changes a s (apply c) = Restates a s c
Changes a s (enrich c) =
    (c.base_generation ≡ a.current.generation)
    × (s ≡ record (a.current) {
      generation = a.next_id + 1;
      records = some (own_record_set c.records);
    })
Changes a s (completion id result e) =
    ((p : Pending) × (a.pending ≡ some p) × Publishes a s id result p)
    ⊎ ((c : ApplyCommand) × (a.replacement ≡ some c) × Restates a s c)
Changes a s _ = ⊥

completion-idle :
    (g : Bool) (w later : World) (a : Actor) (id : ℕ) (result : BuildResult) (e : Option Error)
    → a.pending ≡ none
    → (on_completion g w later a id result e).0.current ≡ a.current
unfolding on_completion
completion-idle g w later a id result e idle = ground arith

-- Without a command that waits, the completion publishes or changes nothing.
completion-Publishes :
    (g : Bool) (w later : World) (a : Actor) (id : ℕ) (result : BuildResult) (e : Option Error)
    (p : Pending)
    → a.pending ≡ some p
    → a.replacement ≡ none
    → let s = (on_completion g w later a id result e).0.current in
      (s ≡ a.current) ⊎ Publishes a s id result p
unfolding on_completion reply_pending publish start_next start start_build commit_state
completion-Publishes g w later a id result e p busy alone = ground arith

-- A command that waits has retired the pending one, so that only it can change the snapshot.
completion-Restates :
    (g : Bool) (w later : World) (a : Actor) (id : ℕ) (result : BuildResult) (e : Option Error)
    (p : Pending) (c : ApplyCommand)
    → IsValid a
    → a.pending ≡ some p
    → a.replacement ≡ some c
    → let s = (on_completion g w later a id result e).0.current in (s ≡ a.current) ⊎ Restates a s c
unfolding on_completion reply_pending publish start_next start start_build commit_state
completion-Restates g w later a id result e p c v busy waits = ground arith

completion-Changes :
    (g : Bool) (w later : World) (a : Actor) (id : ℕ) (result : BuildResult) (e : Option Error)
    → IsValid a
    → let s = (on_completion g w later a id result e).0.current in
      (s ≡ a.current) ⊎ Changes a s (completion id result e)
completion-Changes g w later a id result e v = elim (Option-cases a.pending) [
  | inl idle ↦ inl (completion-idle g w later a id result e idle)
  | inr (p, busy) ↦ elim (Option-cases a.replacement) [
    | inl alone ↦ elim (completion-Publishes g w later a id result e p busy alone) [
      | inl same ↦ inl same
      | inr new ↦ inr (inl (p, busy, new))
    ]
    | inr (c, waits) ↦ elim (completion-Restates g w later a id result e p c v busy waits) [
      | inl same ↦ inl same
      | inr new ↦ inr (inr (c, waits, new))
    ]
  ]
]

handle-Changes :
    (g : Bool) (w later : World) (a : Actor) (i : Input)
    → IsValid a
    → let s = (handle g w later a i).0.current in (s ≡ a.current) ⊎ Changes a s i
unfolding handle on_apply on_enrich commit_enrich on_completion reply_pending publish start_next
    on_close on_caller_done on_session_done start start_build commit_state
handle-Changes g w later a (apply c) v = ground arith
handle-Changes g w later a (enrich c) v = ground arith
handle-Changes g w later a (completion id result e) v = completion-Changes g w later a id result e v
handle-Changes g w later a (close reply) v = inl (ground arith)
handle-Changes g w later a caller_done v = inl (ground arith)
handle-Changes g w later a session_done v = inl (ground arith)
handle-Changes g w later a _ v = inl refl

-- What follows the handling of an input does not touch the snapshot.
step-current :
    (g : Bool) (w later : World) (a : Actor) (i : Input)
    → let s = (step g w later a i).0.current in
      (s ≡ a.current) ⊎ (s ≡ (handle g w later a i).0.current)
unfolding step loop_head
step-current g w later a i = ground arith

-- No transition on another base than the current generation takes effect: a round of a valid actor
-- leaves the current snapshot as it is, or changes it for one command whose base is the current
-- generation. An apply gives it the proposed state, as does the command that waited for the pending
-- one to end; the completion of the pending build, which is not retiring, replaces it by the built
-- snapshot; and an enrichment gives it the next generation with its records.
pub step-Changes :
    (g : Bool) (w later : World) (a : Actor) (i : Input)
    → IsValid a
    → let s = (step g w later a i).0.current in (s ≡ a.current) ⊎ Changes a s i
step-Changes g w later a i v = elim (step-current g w later a i) [
  | inl same ↦ inl same
  | inr handled ↦
      subst (λ s. (s ≡ a.current) ⊎ Changes a s i) (sym handled) (handle-Changes g w later a i v)
]
