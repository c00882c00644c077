-- ===== src/Session/Handle/Files.antt =====
-- What Handle does to the file system (internal/session/events.go with internal/pathutil).
use shell_picker.Base.{
  ℕ, ◌≡◌, refl, ap, ◌∙◌, Bool, Option, none, some, [], true, Bytes, Result, ok, err, sym, subst,
}
use shell_picker.Protocol.Types.{Event}
use shell_picker.Pathutil.Tree.{CreatedTree, FileSystem, System, Outcome, rollback}
use shell_picker.Pathutil.Tree.Rollback.{
  made, CanRemove, IsTree, Fresh, rollback-made, Accounted, create_directory_tree-Accounted,
}
use shell_picker.Session.State.{
  Snapshot, ProposedTransition, AddIntent, Reduction, proposes, adds, Error,
}
use shell_picker.Session.Proposal.{add_error_proposal, set_navigation}
use shell_picker.Protocol.Display.Plain.{IsText}
use shell_picker.Session.Reduce.Proposes.{IsConsistent}
use shell_picker.Session.Reduce.Sound.{reduce-IsSound}
use shell_picker.Session.Reduce.{reduce}
use shell_picker.Session.Handle.{
  applies, refuses, cancelled, Handling, created_proposal, unless_cancelled, handle_created,
  handle_reduction, handle,
}

-- The directories that a proposal carries are those that were made.
abbrev pub Carries : FileSystem → FileSystem → ProposedTransition → Option CreatedTree → Type 0
Carries files last p none = last ≡ files
Carries files last p (some tree) =
    (last ≡ made tree.created files) × (p.state.location ≡ tree.target)

abbrev pub Owned : FileSystem → Handling → Type 0
Owned files (last, applies p) = Carries files last p p.created
Owned files (last, refuses e) = last ≡ files
Owned files (last, cancelled cause failures) = (last ≡ files) × (failures ≡ [])

-- The proposals of Reduce create nothing.
abbrev pub CreatesNothing : Result Error Reduction → Type 0
CreatesNothing (err e) = Unit
CreatesNothing (ok (proposes p)) = p.created ≡ none
CreatesNothing (ok (adds a)) = Unit

module _ (graphic : ℕ → Bool) (equal_fold : Bytes → Bytes → Bool) (sys : System)
    (can : CanRemove sys) where
  unless_cancelled-Owned :
      (cause : Option Error) (s : Snapshot) (a : AddIntent) (tree : CreatedTree)
      (files last : FileSystem)
      → last ≡ made tree.created files
      → Fresh tree.created files
      → Owned files (
          unless_cancelled graphic equal_fold sys cause tree
            (created_proposal graphic equal_fold sys s a tree)
            last)
  unfolding set_navigation
  unless_cancelled-Owned none s a tree files last h f = (h, refl)
  unless_cancelled-Owned (some cause) s a tree files last h f =
      let done : rollback sys tree last ≡ (files, []) =
        ap (rollback sys tree) h ∙ rollback-made sys can tree files f in
      (ap (λ r. r.0) done, ap (λ r. r.1) done)

  handle_created-Owned :
      (cause : Option Error) (s : Snapshot) (a : AddIntent) (files : FileSystem) (outcome : Outcome)
      → Accounted files outcome
      → Owned files (handle_created graphic equal_fold sys cause s a outcome)
  unfolding add_error_proposal
  handle_created-Owned cause s a files (last, err refusal) h = h.0
  handle_created-Owned cause s a files (last, ok tree) h =
      unless_cancelled-Owned cause s a tree files last h.0 h.1

  handle_reduction-Owned :
      (cause : Option Error) (s : Snapshot) (files : FileSystem) (r : Result Error Reduction)
      → IsTree files
      → CreatesNothing r
      → Owned files (handle_reduction graphic equal_fold sys cause s files r)
  handle_reduction-Owned cause s files (err e) t h = refl
  handle_reduction-Owned cause s files (ok (proposes p)) t h =
      subst (Carries files files p) (sym h) refl
  handle_reduction-Owned cause s files (ok (adds a)) t h =
      handle_created-Owned cause s a files _
        (create_directory_tree-Accounted sys can a.base a.query files t)

reduce-CreatesNothing :
    (graphic : ℕ → Bool) (graphic_text : (c : ℕ) → graphic c ≡ true → IsText c)
    (equal_fold : Bytes → Bytes → Bool) (s : Snapshot) (event : Event) (r : Result Error Reduction)
    → IsConsistent s.state
    → reduce graphic equal_fold s event ≡ r
    → CreatesNothing r
reduce-CreatesNothing graphic text equal_fold s event (err e) c h = tt
reduce-CreatesNothing graphic text equal_fold s event (ok (proposes p)) c h =
    (reduce-IsSound graphic text equal_fold s event c h).creates_nothing
reduce-CreatesNothing graphic text equal_fold s event (ok (adds a)) c h = tt

-- Handle owns what it makes: the file system gains exactly the directories of the tree that the
-- proposal carries to the actor, whose location is then the tree's target, and in every other
-- case, errors and a cancelled context included, it is as before; provided no control character is
-- graphic, the snapshot's state is consistent, no entry is below a path without one, and empty
-- directories can be removed. A directory with entries cannot, so that the tree must be taken back
-- from its end.
pub handle-Owned :
    (graphic : ℕ → Bool) (graphic_text : (c : ℕ) → graphic c ≡ true → IsText c)
    (equal_fold : Bytes → Bytes → Bool) (sys : System) (can : CanRemove sys) (cause : Option Error)
    (s : Snapshot) (event : Event) (files : FileSystem)
    → IsConsistent s.state
    → IsTree files
    → Owned files (handle graphic equal_fold sys cause (ok s) event files)
unfolding handle
handle-Owned graphic text equal_fold sys can cause s event files c t =
    handle_reduction-Owned graphic equal_fold sys can cause s files
      (reduce graphic equal_fold s event) t
      (reduce-CreatesNothing graphic text equal_fold s event _ c refl)
