-- ===== src/Tests/Files.antt =====
-- New directories on small file systems.
use shell_picker.Base.{
  ℕ, ◌≡◌, refl, true, false, Bool, none, some, [], ◌∷◌, codes, bytes_eq, ok, arith,
}
use shell_picker.Protocol.Types.{Event, enter, add}
use shell_picker.Protocol.Display.Plain.{IsText}
use shell_picker.Pathutil.Filepath.{dir}
use shell_picker.Pathutil.Location.{at_path}
use shell_picker.Pathutil.Tree.{
  System, FileSystem, directory, symlink, io_error, not_empty, remove, create_directory_tree,
}
use shell_picker.Pathutil.Tree.Rollback.{CanRemove, IsTree}
use shell_picker.Pathutil.Tree.Reached.{ReachedFrom, ancestors, create_directory_tree-ReachedFrom}
use shell_picker.Session.State.{external, State, no_state, Snapshot}
use shell_picker.Session.Proposal.{mode_prompt}
use shell_picker.Session.Reduce.Proposes.{IsConsistent}
use shell_picker.Session.Handle.{handle}
use shell_picker.Session.Handle.Files.{Owned, handle-Owned}

abbrev small : FileSystem
small =
    (codes "/", directory)
    ∷ (codes "/tmp", directory)
    ∷ (codes "/tmp/a", directory)
    ∷ (codes "/tmp/link", symlink)
    ∷ []

-- A system on which no directory named `/tmp/x/y` can be made.
abbrev full : System
full = record {
  lstat_error = λ path. none;
  mkdir_error =
      λ path. elim (bytes_eq path (codes "/tmp/x/y")) [ true ↦ some (io_error 28) | false ↦ none ];
  remove_error = λ path. none;
}

small-IsTree : IsTree small
unfolding dir bytes_eq
small-IsTree path absent = ground arith

full-CanRemove : CanRemove full
full-CanRemove path = refl

create_directory_tree-ReachedFrom_example :
    ReachedFrom
      (codes "/tmp")
      (codes "a/./b")
      (ancestors (codes "/tmp"))
      (create_directory_tree full (at_path (codes "/tmp")) (codes "a/./b") small)
create_directory_tree-ReachedFrom_example =
    create_directory_tree-ReachedFrom full (at_path (codes "/tmp")) (codes "a/./b") small

abbrev adding : State
adding = record no_state { mode = add; location = at_path (codes "/tmp"); prompt = codes "[A] " }

abbrev shown : Snapshot
shown = record { generation = 1; state = adding; records = none }

adding-IsConsistent : IsConsistent adding
unfolding mode_prompt
adding-IsConsistent = record {
  real_mode = ((λ e. cc), (λ e. cc));
  prompt_eq = refl;
  error_in_add = λ e. cc;
}

abbrev entered : Event
entered = record { opcode = enter; key = []; query = codes "x/z"; current_item = [] }

abbrev no_graphic : ℕ → Bool
no_graphic c = false

no_graphic-IsText : (c : ℕ) → no_graphic c ≡ true → IsText c
no_graphic-IsText c h = cc

-- The context is cancelled when two directories have been made.
handle-Owned_example :
    Owned small (handle no_graphic bytes_eq full (some (external 7)) (ok shown) entered small)
handle-Owned_example =
    handle-Owned no_graphic no_graphic-IsText bytes_eq full full-CanRemove (some (external 7)) shown
      entered small adding-IsConsistent small-IsTree

-- From the first to the last the directories cannot be removed.
wrong_order :
    remove full
      (codes "/tmp/x")
      ((codes "/tmp/x/z", directory) ∷ (codes "/tmp/x", directory) ∷ small)
    ≡ ((codes "/tmp/x/z", directory) ∷ (codes "/tmp/x", directory) ∷ small, some not_empty)
unfolding dir bytes_eq
wrong_order = refl
