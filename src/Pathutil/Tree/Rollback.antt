-- ===== src/Pathutil/Tree/Rollback.antt =====
-- A tree that could not be made is taken back, and a tree that was made is reached through
-- directories alone (internal/pathutil/add_unix.go and location.go).
use shell_picker.Base.{
  ◌≡◌, refl, sym, ◌∙◌, true, false, Option, none, some, List, [], ◌∷◌, ◌++◌, Bytes, bytes_eq_refl,
  bytes_eq, eq_of_bytes_eq, Bool-cases, inl, inr, Result, ok, err, arith, ap, subst,
}
use shell_picker.Pathutil.Filepath.{dir, fields, clean, reversed}
use shell_picker.Pathutil.Location.{Location, AddError, validate_add_query}
use shell_picker.Pathutil.Tree.{
  CreatedTree, FileSystem, System, Node, symlink, other_node, directory, entry, in_use, lstat,
  with_created, enter_by, made_by, make_in, mkdir_by, IoError, io_error, not_exist, already_exists,
  not_empty, remove, remove_all, noted, rollback, rollback_after_error, enter_directory, proceed,
  create_from, create_in, create_under, create_checked, TreeError, create_directory_tree, Outcome,
  Entered, is_dot, join_path,
}

-- The file system with new directories, made in this order.
abbrev pub made : List Bytes → FileSystem → FileSystem
made [] files = files
made (p ∷ ps) files = made ps ((p, directory) ∷ files)

made-append :
    (ps : List Bytes) (p : Bytes) (files : FileSystem)
    → made (ps ++ p ∷ []) files ≡ (p, directory) ∷ made ps files
made-append [] p files = refl
made-append (q ∷ ps) p files = made-append ps p ((q, directory) ∷ files)

-- No removal of an empty directory fails.
abbrev pub CanRemove : System → Type 0
CanRemove sys = (path : Bytes) → sys.remove_error path ≡ none

-- Where no entry is, none is below.
abbrev pub IsTree : FileSystem → Type 0
IsTree files = (path : Bytes) → entry path files ≡ none → in_use path files ≡ false

-- Each of the directories is new, and empty, when it is made.
abbrev pub Fresh : List Bytes → FileSystem → Type 0
Fresh [] files = Unit
Fresh (p ∷ ps) files = (in_use p files ≡ false) × Fresh ps ((p, directory) ∷ files)

Fresh-append :
    (ps : List Bytes) (p : Bytes) (files : FileSystem)
    → Fresh ps files
    → in_use p (made ps files) ≡ false
    → Fresh (ps ++ p ∷ []) files
Fresh-append [] p files h k = (k, tt)
Fresh-append (q ∷ ps) p files h k = (h.0, Fresh-append ps p ((q, directory) ∷ files) h.1 k)

-- A directory that is made in one that is there keeps a tree.
IsTree-made :
    (path : Bytes) (files : FileSystem) {n : Node}
    → entry (dir path) files ≡ some n
    → IsTree files
    → IsTree ((path, directory) ∷ files)
IsTree-made path files {n} h t q absent = elim (Bool-cases (bytes_eq (dir path) q)) [
  | inl e ↦
      let there : entry q files ≡ some n =
        subst (λ x. entry x files ≡ some n) (eq_of_bytes_eq (dir path) q e) h in
      absurd (ground arith)
  | inr e ↦ ground (arith, t q)
]

remove-made :
    (sys : System)
    → CanRemove sys
    → (p : Bytes) (files : FileSystem) → in_use p files ≡ false
    → remove sys p ((p, directory) ∷ files) ≡ (files, none)
remove-made sys can p files h = ground (arith, bytes_eq_refl p, can p)

remove_all-made :
    (sys : System)
    → CanRemove sys
    → (ps acc : List Bytes) (files : FileSystem) → Fresh ps files
    → remove_all sys (reversed ps acc) (made ps files) ≡ remove_all sys acc files
unfolding reversed
remove_all-made sys can [] acc files h = refl
remove_all-made sys can (p ∷ ps) acc files h =
    remove_all-made sys can ps (p ∷ acc) ((p, directory) ∷ files) h.1
    ∙ ap (λ r. ((remove_all sys acc r.0).0, noted p r.1 ++ (remove_all sys acc r.0).1))
        (remove-made sys can p files h.0)

-- Rollback takes back exactly the directories that were made, the last one first: each is empty when
-- its turn comes.
pub rollback-made :
    (sys : System)
    → CanRemove sys
    → (tree : CreatedTree) (files : FileSystem) → Fresh tree.created files
    → rollback sys tree (made tree.created files) ≡ (files, [])
unfolding rollback
rollback-made sys can tree files h = remove_all-made sys can tree.created [] files h

-- A failure leaves the file system as it was, a success adds the directories it names.
abbrev pub Accounted : FileSystem → Outcome → Type 0
Accounted files (last, err r) = (last ≡ files) × (r.leftovers ≡ [])
Accounted files (last, ok tree) = (last ≡ made tree.created files) × Fresh tree.created files

-- The directories were made from a tree, each in one that was there.
abbrev Grown : CreatedTree → FileSystem → FileSystem → Type 0
Grown tree files last = (last ≡ made tree.created files) × Fresh tree.created files × IsTree last

-- The same for one component, before Rollback.
abbrev EnteredFrom : CreatedTree → FileSystem → Entered → Type 0
EnteredFrom tree files (last, err e) = Grown tree files last
EnteredFrom tree files (last, ok grown) = Grown grown files last

module _ (sys : System) (tree : CreatedTree) (path : Bytes) (files last : FileSystem)
    (g : Grown tree files last) where
  with_created-Grown :
      {n : Node}
      → entry (dir path) last ≡ some n
      → entry path last ≡ none
      → Grown (with_created tree path) files ((path, directory) ∷ last)
  with_created-Grown h k =
      let (same, fresh, tree_) = g in
      (
        ap (λ f. (path, directory) ∷ f) same ∙ sym (made-append tree.created path files),
        Fresh-append tree.created path files fresh
            (subst (λ f. in_use path f ≡ false) same (tree_ path k)),
        IsTree-made path last h tree_,
      )

  make_in-Grown :
      (o : Option Node)
      → entry (dir path) last ≡ o
      → entry path last ≡ none
      → EnteredFrom tree files (made_by tree path last (make_in o path last))
  make_in-Grown none h k = g
  make_in-Grown (some directory) h k = with_created-Grown h k
  make_in-Grown (some symlink) h k = g
  make_in-Grown (some other_node) h k = g

  mkdir_by-Grown :
      (n : Option Node) (e : Option IoError)
      → entry path last ≡ n
      → EnteredFrom tree files (made_by tree path last (mkdir_by path last n e))
  mkdir_by-Grown n (some e) h = g
  mkdir_by-Grown (some n) none h = g
  mkdir_by-Grown none none h = make_in-Grown (entry (dir path) last) refl h

  enter_by-Grown :
      (r : Result IoError Node) → EnteredFrom tree files (enter_by sys tree path last r)
  enter_by-Grown (ok symlink) = g
  enter_by-Grown (ok other_node) = g
  enter_by-Grown (ok directory) = g
  enter_by-Grown (err not_exist) = mkdir_by-Grown (entry path last) (sys.mkdir_error path) refl
  enter_by-Grown (err already_exists) = g
  enter_by-Grown (err not_empty) = g
  enter_by-Grown (err (io_error n)) = g

enter_directory-Grown :
    (sys : System) (tree : CreatedTree) (path : Bytes) (files last : FileSystem)
    → Grown tree files last
    → EnteredFrom tree files (enter_directory sys tree path last)
unfolding enter_directory
enter_directory-Grown sys tree path files last g =
    enter_by-Grown sys tree path files last g (lstat sys last path)

proceed-Accounted :
    (sys : System)
    → CanRemove sys
    → (tree : CreatedTree) (files : FileSystem) (entered : Entered)
      (continue : CreatedTree → FileSystem → Outcome)
    → EnteredFrom tree files entered
    → ((grown : CreatedTree) (next : FileSystem)
        → Grown grown files next
        → Accounted files (continue grown next))
    → Accounted files (proceed sys tree entered continue)
unfolding rollback_after_error
proceed-Accounted sys can tree files (next, err e) continue h k =
    let done : rollback sys tree next ≡ (files, []) =
      ap (rollback sys tree) h.0 ∙ rollback-made sys can tree files h.1 in
    (ap (λ r. r.0) done, ap (λ r. r.1) done)
proceed-Accounted sys can tree files (next, ok grown) continue h k = k grown next h

create_from-Accounted :
    (sys : System)
    → CanRemove sys
    → (tree : CreatedTree) (current : Bytes) (cs : List Bytes) (files last : FileSystem)
    → Grown tree files last
    → Accounted files (create_from sys tree current cs last)
unfolding create_from
create_from-Accounted sys can tree current [] files last e = (e.0, e.1)
create_from-Accounted sys can tree current (c ∷ cs) files last e =
    let path = join_path current c in
    elim (is_dot c)
      as (λ b. Accounted files (elim b as (λ x. Outcome) [
        | true ↦ create_from sys tree current cs last
        | false ↦
            proceed sys tree (enter_directory sys tree path last)
              (λ grown next. create_from sys grown path cs next)
      ])) [
        | true ↦ create_from-Accounted sys can tree current cs files last e
        | false ↦
            proceed-Accounted sys can tree files (enter_directory sys tree path last) _
              (enter_directory-Grown sys tree path files last e)
              (λ grown next h. create_from-Accounted sys can grown path cs files next h)
      ]

create_in-Accounted :
    (sys : System)
    → CanRemove sys
    → (base query : Bytes) (e : Option TreeError) (files : FileSystem) → IsTree files
    → Accounted files (create_in sys base query e files)
create_in-Accounted sys can base query (some e) files t = (refl, refl)
create_in-Accounted sys can base query none files t =
    create_from-Accounted sys can _ (clean base) (fields query) files files (refl, tt, t)

create_under-Accounted :
    (sys : System)
    → CanRemove sys
    → (base query : Bytes) (ancestry : Result TreeError (List Bytes)) (files : FileSystem)
    → IsTree files
    → Accounted files (create_under sys base query ancestry files)
create_under-Accounted sys can base query (err e) files t = (refl, refl)
create_under-Accounted sys can base query (ok paths) files t =
    create_in-Accounted sys can base query _ files t

create_checked-Accounted :
    (sys : System)
    → CanRemove sys
    → (base query : Bytes) (valid : Result AddError (Unit {0})) (files : FileSystem) → IsTree files
    → Accounted files (create_checked sys base query valid files)
create_checked-Accounted sys can base query (err e) files t = (refl, refl)
create_checked-Accounted sys can base query (ok v) files t =
    create_under-Accounted sys can base query _ files t

-- CreateDirectoryTree either fails and leaves the file system as it found it, or adds just the
-- directories that it names, in that order, provided empty directories can
-- be removed. A directory is removed only when it is empty, so that the order matters.
pub create_directory_tree-Accounted :
    (sys : System)
    → CanRemove sys
    → (base : Location) (query : Bytes) (files : FileSystem) → IsTree files
    → Accounted files (create_directory_tree sys base query files)
unfolding create_directory_tree
create_directory_tree-Accounted sys can base query files t =
    create_checked-Accounted sys can base.path query (validate_add_query base query) files t
