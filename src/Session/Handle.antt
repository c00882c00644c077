-- ===== src/Session/Handle.antt =====
-- internal/session/events.go: Handle, from an event to the transition that it asks the actor for.
-- The context's cause is read after the directories are made; the checks for nil are left out.
pub mod Files
use shell_picker.Base.{ℕ, Bool, Option, none, some, Bytes, Result, ok, err}
use shell_picker.Protocol.Types.{Event, no_effect}
use shell_picker.Pathutil.Tree.{
  CreatedTree, FileSystem, System, Outcome, Failures, rollback, create_directory_tree,
}
use shell_picker.Session.State.{
  State, Snapshot, ProposedTransition, AddIntent, Reduction, proposes, adds, Error,
}
use shell_picker.Session.Proposal.{add_error_proposal, set_navigation}
use shell_picker.Session.Reduce.{reduce}

-- The call of actor.Apply, or an error; a cancelled context's cause is joined with what Rollback
-- returns.
pub data Handled : Type 0 where
  applies : ProposedTransition → Handled
  refuses : Error → Handled
  cancelled : Error → Failures → Handled

abbrev pub Handling : Type 0
Handling = FileSystem × Handled

module _ (graphic : ℕ → Bool) (equal_fold : Bytes → Bytes → Bool) (sys : System) where
  abbrev pub created_proposal : Snapshot → AddIntent → CreatedTree → ProposedTransition
  created_proposal snapshot intent tree =
      set_navigation graphic
        (record {
          base_generation = intent.base_generation;
          state = snapshot.state;
          build = none;
          effect = no_effect;
          created = some tree;
        })
        tree.target

  abbrev pub unless_cancelled :
      Option Error → CreatedTree → ProposedTransition → FileSystem → Handling
  unless_cancelled none tree proposal files = (files, applies proposal)
  unless_cancelled (some cause) tree proposal files =
      let (restored, failures) = rollback sys tree files in (restored, cancelled cause failures)

  abbrev pub handle_created : Option Error → Snapshot → AddIntent → Outcome → Handling
  handle_created cause snapshot intent (files, err refusal) =
      (files, applies (add_error_proposal snapshot))
  handle_created cause snapshot intent (files, ok tree) =
      unless_cancelled cause tree (created_proposal snapshot intent tree) files

  abbrev pub handle_reduction :
      Option Error → Snapshot → FileSystem → Result Error Reduction → Handling
  handle_reduction cause snapshot files (err e) = (files, refuses e)
  handle_reduction cause snapshot files (ok (proposes proposal)) = (files, applies proposal)
  handle_reduction cause snapshot files (ok (adds intent)) =
      handle_created cause snapshot intent
        (create_directory_tree sys intent.base intent.query files)

  abbrev pub handle_current : Option Error → Event → FileSystem → Result Error Snapshot → Handling
  handle_current cause event files (err e) = (files, refuses e)
  handle_current cause event files (ok snapshot) =
      handle_reduction cause snapshot files (reduce graphic equal_fold snapshot event)

  -- `Handle`, with what actor.Current returns.
  unfoldable pub handle : Option Error → Result Error Snapshot → Event → FileSystem → Handling
  handle cause current event files = handle_current cause event files current
