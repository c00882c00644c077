-- ===== src/Pathutil/Tree.antt =====
-- internal/pathutil/add_unix.go and the trees of location.go: new directories, and taking them back.
-- The file system is the list of its entries; a `System` says which calls fail.
pub mod Rollback
pub mod Reached
use shell_picker.Base.{
  ℕ, Bool, true, false, not, ◌&&◌, ◌||◌, if◌then◌else◌, Option, none, some, List, [], ◌∷◌, ◌++◌,
  Bytes, bytes_eq, codes, Result, ok, err,
}
use shell_picker.Pathutil.Filepath.{dir, separator, dot, is_abs, fields, join, clean, reversed}
use shell_picker.Pathutil.Location.{Location, AddError, at_path, validate_add_query}

pub record CreatedTree : Type 0 where
  pub target : Location
  pub created : List Bytes

-- What os.Lstat tells of an entry.
pub data Node : Type 0 where
  directory symlink other_node : Node

abbrev pub FileSystem : Type 0
FileSystem = List (Bytes × Node)

-- An error of a system call: what its callers tell apart, and any other by a number.
pub data IoError : Type 0 where
  not_exist already_exists not_empty : IoError
  io_error : ℕ → IoError

-- The failures of os.Lstat (other than of an absent entry), os.Mkdir and os.Remove, at a path.
pub record System : Type 0 where
  pub lstat_error : Bytes → Option IoError
  pub mkdir_error : Bytes → Option IoError
  pub remove_error : Bytes → Option IoError

abbrev pub entry : Bytes → FileSystem → Option Node
entry path [] = none
entry path ((p, n) ∷ es) = if bytes_eq p path then some n else entry path es

abbrev lstat_by : Option IoError → Option Node → Result IoError Node
lstat_by (some e) n = err e
lstat_by none none = err not_exist
lstat_by none (some n) = ok n

abbrev pub lstat : System → FileSystem → Bytes → Result IoError Node
lstat sys files path = lstat_by (sys.lstat_error path) (entry path files)

abbrev pub delete : Bytes → FileSystem → FileSystem
delete path [] = []
delete path ((p, n) ∷ es) = if bytes_eq p path then es else (p, n) ∷ delete path es

-- An entry in the directory at the path.
abbrev pub is_child : Bytes → Bytes → Bool
is_child path p = not (bytes_eq p path) && bytes_eq (dir p) path

abbrev pub in_use : Bytes → FileSystem → Bool
in_use path [] = false
in_use path ((p, n) ∷ es) = is_child path p || in_use path es

abbrev remove_by : Bytes → FileSystem → Option Node → Option IoError → FileSystem × Option IoError
remove_by path files n (some e) = (files, some e)
remove_by path files none none = (files, some not_exist)
remove_by path files (some n) none =
    if in_use path files then (files, some not_empty) else (delete path files, none)

-- `os.Remove`, which does not remove a directory with entries.
abbrev pub remove : System → Bytes → FileSystem → FileSystem × Option IoError
remove sys path files = remove_by path files (entry path files) (sys.remove_error path)

-- The errors of CreateDirectoryTree.
pub data TreeError : Type 0 where
  invalid_query : TreeError
  not_absolute : Bytes → TreeError
  inspect_failed create_failed : Bytes → IoError → TreeError
  unsafe_traversal not_a_directory : Bytes → TreeError

-- What Rollback joins: the removals that failed.
abbrev pub Failures : Type 0
Failures = List (Bytes × IoError)

-- A directory that is gone, or is in use, is left alone.
abbrev pub noted : Bytes → Option IoError → Failures
noted path (some (io_error n)) = (path, io_error n) ∷ []
noted path _ = []

abbrev pub remove_all : System → List Bytes → FileSystem → FileSystem × Failures
remove_all sys [] files = (files, [])
remove_all sys (path ∷ paths) files =
    let (next, failure) = remove sys path files in
    let (last, failures) = remove_all sys paths next in (last, noted path failure ++ failures)

-- `Rollback`, from the last directory to the first.
unfoldable pub rollback : System → CreatedTree → FileSystem → FileSystem × Failures
unfolding reversed
rollback sys tree files = remove_all sys (reversed tree.created []) files

-- An error with what Rollback adds to it.
pub record Refusal : Type 0 where
  pub reason : TreeError
  pub leftovers : Failures

abbrev pub Outcome : Type 0
Outcome = FileSystem × Result Refusal CreatedTree

-- `rollbackAfterError`.
unfoldable pub rollback_after_error : System → CreatedTree → TreeError → FileSystem → Outcome
rollback_after_error sys tree e files =
    let (restored, failures) = rollback sys tree files in
    (restored, err (record { reason = e; leftovers = failures }))

abbrev pub refuse : TreeError → FileSystem → Outcome
refuse e files = (files, err (record { reason = e; leftovers = [] }))

-- `filepath.Join(current, component)`.
unfoldable pub join_path : Bytes → Bytes → Bytes
unfolding clean join
join_path current component = clean (join (current ∷ component ∷ []))

-- The paths from `current` down along the components.
abbrev pub paths_from : Bytes → List Bytes → List Bytes
paths_from current [] = []
paths_from current (c ∷ cs) = let next = join_path current c in next ∷ paths_from next cs

-- `absoluteAncestryUnix`.
unfoldable pub absolute_ancestry : Bytes → Result TreeError (List Bytes)
unfolding fields is_abs
absolute_ancestry base =
    if is_abs base
    then ok ((separator ∷ []) ∷ paths_from (separator ∷ []) (fields base))
    else err (not_absolute base)

abbrev checked : Bytes → Result IoError Node → Option TreeError
checked path (err e) = some (inspect_failed path e)
checked path (ok symlink) = some (unsafe_traversal path)
checked path (ok other_node) = some (not_a_directory path)
checked path (ok directory) = none

-- `checkDirectoryUnix`: nil, or an error.
unfoldable pub check_directory : System → FileSystem → Bytes → Option TreeError
check_directory sys files path = checked path (lstat sys files path)

abbrev or_else : Option TreeError → Option TreeError → Option TreeError
or_else (some e) rest = some e
or_else none rest = rest

abbrev pub check_all : System → FileSystem → List Bytes → Option TreeError
check_all sys files [] = none
check_all sys files (path ∷ paths) =
    or_else (check_directory sys files path) (check_all sys files paths)

abbrev pub with_created : CreatedTree → Bytes → CreatedTree
with_created tree path = record tree { created = tree.created ++ path ∷ [] }

-- ENOTDIR.
abbrev not_directory : IoError
not_directory = io_error 20

abbrev pub make_in : Option Node → Bytes → FileSystem → Result IoError FileSystem
make_in none path files = err not_exist
make_in (some directory) path files = ok ((path, directory) ∷ files)
make_in (some symlink) path files = err not_directory
make_in (some other_node) path files = err not_directory

abbrev pub mkdir_by : Bytes → FileSystem → Option Node → Option IoError → Result IoError FileSystem
mkdir_by path files n (some e) = err e
mkdir_by path files (some n) none = err already_exists
mkdir_by path files none none = make_in (entry (dir path) files) path files

-- `os.Mkdir`, in a directory that is there; no link is followed, and none is where it is called.
abbrev mkdir : System → Bytes → FileSystem → Result IoError FileSystem
mkdir sys path files = mkdir_by path files (entry path files) (sys.mkdir_error path)

abbrev pub Entered : Type 0
Entered = FileSystem × Result TreeError CreatedTree

abbrev pub made_by : CreatedTree → Bytes → FileSystem → Result IoError FileSystem → Entered
made_by tree path files (err e) = (files, err (create_failed path e))
made_by tree path files (ok grown) = (grown, ok (with_created tree path))

abbrev pub enter_by : System → CreatedTree → Bytes → FileSystem → Result IoError Node → Entered
enter_by sys tree path files (ok symlink) = (files, err (unsafe_traversal path))
enter_by sys tree path files (ok other_node) = (files, err (not_a_directory path))
enter_by sys tree path files (ok directory) = (files, ok tree)
enter_by sys tree path files (err not_exist) = made_by tree path files (mkdir sys path files)
enter_by sys tree path files (err e) = (files, err (inspect_failed path e))

-- One component of the loop: a directory is entered, and made where nothing is.
unfoldable pub enter_directory : System → CreatedTree → Bytes → FileSystem → Entered
enter_directory sys tree path files = enter_by sys tree path files (lstat sys files path)

abbrev is_dot : Bytes → Bool
is_dot component = bytes_eq component dot

-- What follows a component that was entered; Rollback, where it was not.
abbrev pub proceed : System → CreatedTree → Entered → (CreatedTree → FileSystem → Outcome) → Outcome
proceed sys tree (next, err e) continue = rollback_after_error sys tree e next
proceed sys tree (next, ok grown) continue = continue grown next

-- The loop over the components of the query.
unfoldable pub create_from : System → CreatedTree → Bytes → List Bytes → FileSystem → Outcome
create_from sys tree current [] files = (files, ok (record tree { target = at_path current }))
create_from sys tree current (c ∷ cs) files =
    let path = join_path current c in
    elim (is_dot c) [
      | true ↦ create_from sys tree current cs files
      | false ↦
          proceed sys tree (enter_directory sys tree path files)
            (λ grown next. create_from sys grown path cs next)
    ]

abbrev pub create_in : System → Bytes → Bytes → Option TreeError → FileSystem → Outcome
create_in sys base query (some e) files = refuse e files
create_in sys base query none files =
    create_from sys (record { target = at_path (clean base); created = [] }) (clean base)
      (fields query) files

abbrev pub create_under :
    System → Bytes → Bytes → Result TreeError (List Bytes) → FileSystem → Outcome
create_under sys base query (err e) files = refuse e files
create_under sys base query (ok ancestry) files =
    create_in sys base query (check_all sys files ancestry) files

abbrev pub create_checked :
    System → Bytes → Bytes → Result AddError (Unit {0}) → FileSystem → Outcome
create_checked sys base query (err e) files = refuse invalid_query files
create_checked sys base query (ok valid) files =
    create_under sys base query (absolute_ancestry base) files

-- `CreateDirectoryTree`.
unfoldable pub create_directory_tree : System → Location → Bytes → FileSystem → Outcome
create_directory_tree sys base query files =
    create_checked sys base.path query (validate_add_query base query) files
