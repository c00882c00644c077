-- ===== src/Pathutil/Tree/Reached.antt =====
-- A new tree is reached through directories alone: no symbolic link is followed
-- (internal/pathutil/add_unix.go).
use shell_picker.Base.{
  ◌≡◌, refl, true, false, Option, none, some, List, [], ◌∷◌, Bytes, bytes_eq_refl, Result, ok, err,
  arith, All, eq_of_bytes_eq,
}
use shell_picker.Pathutil.Filepath.{fields, clean}
use shell_picker.Pathutil.Location.{Location, AddError, at_path, validate_add_query}
use shell_picker.Pathutil.Tree.{
  CreatedTree, FileSystem, System, directory, entry, enter_directory, rollback_after_error, proceed,
  create_from, create_in, create_under, create_checked, TreeError, create_directory_tree, Outcome,
  Entered, is_dot, join_path, absolute_ancestry, check_directory, check_all,
}

abbrev pub IsDirectory : FileSystem → Bytes → Type 0
IsDirectory files path = entry path files ≡ some directory

-- The paths that the components lead to, without those that are `.`.
abbrev pub visited : Bytes → List Bytes → List Bytes
visited current [] = []
visited current (c ∷ cs) = elim (is_dot c) [
  | true ↦ visited current cs
  | false ↦ let path = join_path current c in path ∷ visited path cs
]

-- Where the components lead.
abbrev pub destination : Bytes → List Bytes → Bytes
destination current [] = current
destination current (c ∷ cs) = elim (is_dot c) [
  | true ↦ destination current cs
  | false ↦ destination (join_path current c) cs
]

-- After a step that succeeded, its path is a directory and directories stay.
abbrev EntersAt : Bytes → Bytes → FileSystem → Entered → Type 0
EntersAt p path files (last, err e) = Unit
EntersAt p path files (last, ok grown) =
    IsDirectory last path × (IsDirectory files p → IsDirectory last p)

enter_directory-EntersAt :
    (sys : System) (tree : CreatedTree) (path p : Bytes) (files : FileSystem)
    → EntersAt p path files (enter_directory sys tree path files)
unfolding enter_directory
enter_directory-EntersAt sys tree path p files =
    ground (arith, bytes_eq_refl path, eq_of_bytes_eq path p)

-- A success ends at the target, every path on the way is a directory, and directories stay.
abbrev pub Reaches : List Bytes → Bytes → FileSystem → Outcome → Type 0
Reaches paths target files (last, err e) = Unit
Reaches paths target files (last, ok tree) =
    All (IsDirectory last) paths
    × (tree.target ≡ at_path target)
    × ((p : Bytes) → IsDirectory files p → IsDirectory last p)

Reaches-cons :
    (path target : Bytes) (paths : List Bytes) (files next : FileSystem) (outcome : Outcome)
    → IsDirectory next path
    → ((p : Bytes) → IsDirectory files p → IsDirectory next p)
    → Reaches paths target next outcome
    → Reaches (path ∷ paths) target files outcome
Reaches-cons path target paths files next (last, err e) h k r = tt
Reaches-cons path target paths files next (last, ok tree) h k (all_dirs, same, keep) =
    ((keep path h, all_dirs), same, λ p d. keep p (k p d))

proceed-Reaches :
    (sys : System) (tree : CreatedTree) (path target : Bytes) (paths : List Bytes)
    (files : FileSystem) (entered : Entered) (continue : CreatedTree → FileSystem → Outcome)
    → ((p : Bytes) → EntersAt p path files entered)
    → ((grown : CreatedTree) (next : FileSystem) → Reaches paths target next (continue grown next))
    → Reaches (path ∷ paths) target files (proceed sys tree entered continue)
unfolding rollback_after_error
proceed-Reaches sys tree path target paths files (next, err e) continue h k = tt
proceed-Reaches sys tree path target paths files (next, ok grown) continue h k =
    Reaches-cons path target paths files next (continue grown next) (h path).0 (λ p. (h p).1)
      (k grown next)

create_from-Reaches :
    (sys : System) (tree : CreatedTree) (current : Bytes) (cs : List Bytes) (files : FileSystem)
    → Reaches
        (visited current cs)
        (destination current cs)
        files
        (create_from sys tree current cs files)
unfolding create_from
create_from-Reaches sys tree current [] files = (tt, refl, λ p d. d)
create_from-Reaches sys tree current (c ∷ cs) files =
    let path = join_path current c in
    elim (is_dot c)
      as (λ b.
        Reaches
          (elim b as (λ x. List Bytes) [
            | true ↦ visited current cs
            | false ↦ path ∷ visited path cs
          ])
          (elim b as (λ x. Bytes) [ true ↦ destination current cs | false ↦ destination path cs ])
          files
          (elim b as (λ x. Outcome) [
            | true ↦ create_from sys tree current cs files
            | false ↦
                proceed sys tree (enter_directory sys tree path files)
                  (λ grown next. create_from sys grown path cs next)
          ])) [
            | true ↦ create_from-Reaches sys tree current cs files
            | false ↦
                proceed-Reaches sys tree path (destination path cs) (visited path cs) files
                  (enter_directory sys tree path files) _
                  (λ p. enter_directory-EntersAt sys tree path p files)
                  (λ grown next. create_from-Reaches sys grown path cs next)
          ]

check_all-directories :
    (sys : System) (files : FileSystem) (paths : List Bytes)
    → check_all sys files paths ≡ none
    → All (IsDirectory files) paths
unfolding check_directory
check_all-directories sys files [] h = tt
check_all-directories sys files (p ∷ ps) h = ground (arith, check_all-directories sys files ps)

All-kept :
    (files last : FileSystem) (paths : List Bytes)
    → ((p : Bytes) → IsDirectory files p → IsDirectory last p)
    → All (IsDirectory files) paths
    → All (IsDirectory last) paths
All-kept files last [] keep h = tt
All-kept files last (p ∷ ps) keep h = (keep p h.0, All-kept files last ps keep h.1)

-- Along the ancestors of the base and the components of the query.
abbrev pub ReachedFrom : Bytes → Bytes → List Bytes → Outcome → Type 0
ReachedFrom base query ancestry (last, err e) = Unit
ReachedFrom base query ancestry (last, ok tree) =
    All (IsDirectory last) ancestry
    × All (IsDirectory last) (visited (clean base) (fields query))
    × (tree.target ≡ at_path (destination (clean base) (fields query)))

Reaches-ReachedFrom :
    (base query : Bytes) (ancestry : List Bytes) (files : FileSystem) (outcome : Outcome)
    → All (IsDirectory files) ancestry
    → Reaches
        (visited (clean base) (fields query))
        (destination (clean base) (fields query))
        files
        outcome
    → ReachedFrom base query ancestry outcome
Reaches-ReachedFrom base query ancestry files (last, err e) h r = tt
Reaches-ReachedFrom base query ancestry files (last, ok tree) h (all_dirs, same, keep) =
    (All-kept files last ancestry keep h, all_dirs, same)

create_in-ReachedFrom :
    (sys : System) (base query : Bytes) (ancestry : List Bytes) (failure : Option TreeError)
    (files : FileSystem)
    → check_all sys files ancestry ≡ failure
    → ReachedFrom base query ancestry (create_in sys base query failure files)
create_in-ReachedFrom sys base query ancestry (some e) files h = tt
create_in-ReachedFrom sys base query ancestry none files h =
    Reaches-ReachedFrom base query ancestry files _ (check_all-directories sys files ancestry h)
      (create_from-Reaches sys _ (clean base) (fields query) files)

abbrev or_nil : Result TreeError (List Bytes) → List Bytes
or_nil (err e) = []
or_nil (ok paths) = paths

-- `absoluteAncestryUnix`, without its error.
abbrev pub ancestors : Bytes → List Bytes
ancestors base = or_nil (absolute_ancestry base)

create_under-ReachedFrom :
    (sys : System) (base query : Bytes) (ancestry : Result TreeError (List Bytes))
    (files : FileSystem)
    → ReachedFrom base query (or_nil ancestry) (create_under sys base query ancestry files)
create_under-ReachedFrom sys base query (err e) files = tt
create_under-ReachedFrom sys base query (ok paths) files =
    create_in-ReachedFrom sys base query paths _ files refl

create_checked-ReachedFrom :
    (sys : System) (base query : Bytes) (valid : Result AddError (Unit {0})) (files : FileSystem)
    → ReachedFrom base query (ancestors base) (create_checked sys base query valid files)
create_checked-ReachedFrom sys base query (err e) files = tt
create_checked-ReachedFrom sys base query (ok v) files =
    create_under-ReachedFrom sys base query _ files

-- When CreateDirectoryTree succeeds, every path from the root to the base and from there to the
-- target is a real directory, so no symbolic link was followed, and the target is where the
-- query leads.
pub create_directory_tree-ReachedFrom :
    (sys : System) (base : Location) (query : Bytes) (files : FileSystem)
    → ReachedFrom base.path query (ancestors base.path) (create_directory_tree sys base query files)
unfolding create_directory_tree
create_directory_tree-ReachedFrom sys base query files =
    create_checked-ReachedFrom sys base.path query (validate_add_query base query) files
