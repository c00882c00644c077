-- ===== src/Session/Reduce/Proposes.antt =====
-- What a sound proposal is (internal/session/events.go), and the results that propose one.
use shell_picker.Base.{
  ℕ, ◌≡◌, ◌≢◌, refl, Bool, true, false, if◌then◌else◌, Option, none, some, Result, ok, err, ◌>>=◌,
}
use shell_picker.Protocol.Types.{no_mode, add, other_mode, Effect}
use shell_picker.Fzf.Render.Total.{renderable}
use shell_picker.Candidate.Entry.{BuildRequest}
use shell_picker.Session.State.{
  State, Snapshot, ProposedTransition, Reduction, proposes, adds, AddIntent, Error,
}
use shell_picker.Session.Proposal.{is_add, mode_prompt}

-- A state between two events: a real mode, its prompt, and the error mark only in Add mode.
pub record IsConsistent (s : State) : Type 0 where
  pub real_mode : (s.mode ≢ no_mode) × (s.mode ≢ other_mode)
  pub prompt_eq : s.prompt ≡ mode_prompt s.mode s.add_error
  pub error_in_add : s.add_error ≡ true → s.mode ≡ add

-- The effect as the actor publishes it: a build sets the generation to load.
abbrev pub published : ProposedTransition → ℕ → Effect
published p id = published_by p.build p.effect
  where
    published_by : Option BuildRequest → Effect → Effect
    published_by none e = e
    published_by (some b) e = record e { reload_generation = id }

-- A location changes only with a build of its candidates, and neither in Add mode nor into it.
abbrev pub Builds : Snapshot → ProposedTransition → Option BuildRequest → Type 0
Builds s p none = p.state.location ≡ s.state.location
Builds s p (some b) =
    (b.location ≡ p.state.location)
    × (b.picker ≡ p.state.picker)
    × (is_add s.state.mode ≡ false)
    × (is_add p.state.mode ≡ false)
    × (p.effect.restore_generation ≡ 0)

pub record IsSound (s : Snapshot) (p : ProposedTransition) : Type 0 where
  pub same_base : p.base_generation ≡ s.generation
  pub same_picker : p.state.picker ≡ s.state.picker
  pub same_home : p.state.home ≡ s.state.home
  pub consistent : IsConsistent p.state
  pub builds : Builds s p p.build
  pub renders : (id : ℕ) → renderable (published p id) ≡ true
  pub creates_nothing : p.created ≡ none

-- What holds of the proposal, if the result is one.
unfoldable pub Proposes : (ProposedTransition → Type 0) → Result Error Reduction → Type 0
Proposes Q (ok (proposes p)) = Q p
Proposes Q (ok (adds a)) = Unit
Proposes Q (err e) = Unit

pub Proposes-ok :
    (Q : ProposedTransition → Type 0) (p : ProposedTransition) → Q p → Proposes Q (ok (proposes p))
unfolding Proposes
Proposes-ok Q p h = h

pub Proposes-adds : (Q : ProposedTransition → Type 0) (a : AddIntent) → Proposes Q (ok (adds a))
unfolding Proposes
Proposes-adds Q a = tt

pub Proposes-err : (Q : ProposedTransition → Type 0) (e : Error) → Proposes Q (err e)
unfolding Proposes
Proposes-err Q e = tt

pub Proposes->>= {ℓ} :
    {A : Type ℓ} (Q : ProposedTransition → Type 0) (m : Result Error A)
    (f : A → Result Error Reduction)
    → ((a : A) → Proposes Q (f a))
    → Proposes Q (m >>= f)
Proposes->>= Q (ok a) f h = h a
Proposes->>= Q (err e) f h = Proposes-err Q e

pub Proposes-if :
    (Q : ProposedTransition → Type 0) (b : Bool) (x y : Result Error Reduction)
    → (b ≡ true → Proposes Q x)
    → (b ≡ false → Proposes Q y)
    → Proposes Q (if b then x else y)
Proposes-if Q true x y h k = h refl
Proposes-if Q false x y h k = k refl

pub IsSound-if :
    (s : Snapshot) (b : Bool) (p q : ProposedTransition)
    → (b ≡ true → IsSound s p)
    → (b ≡ false → IsSound s q)
    → IsSound s (if b then p else q)
IsSound-if s true p q h k = h refl
IsSound-if s false p q h k = k refl
