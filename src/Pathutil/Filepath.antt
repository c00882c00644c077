-- ===== src/Pathutil/Filepath.antt =====
-- path/filepath of Go's library on Unix, as the program uses it: Clean, Dir, Base, Join, Rel and
-- IsAbs. They work on the text alone.
use shell_picker.Base.{
  ◌≡◌, refl, ℕ, Bool, true, false, not, ◌==◌, ◌&&◌, if◌then◌else◌, Option, none, some, List, [],
  ◌∷◌, ◌++◌, Bytes, bytes_eq, codes,
}

abbrev pub separator : ℕ
separator = b'/'

abbrev pub dot : Bytes
dot = codes "."

abbrev pub dot_dot : Bytes
dot_dot = codes ".."

unfoldable pub is_abs : Bytes → Bool
is_abs [] = false
is_abs (c ∷ s) = c == separator

-- The parts between separators: the part in front, then the rest; empty parts are left out,
-- as in `bytes.FieldsFunc`.
abbrev close_part : Bytes → List Bytes → List Bytes
close_part [] parts = parts
close_part (c ∷ s) parts = (c ∷ s) ∷ parts

split_first : Bytes → Bytes × List Bytes
split_first [] = ([], [])
split_first (c ∷ s) =
    let (front, parts) = split_first s in
    if c == separator then ([], close_part front parts) else (c ∷ front, parts)

unfoldable pub fields : Bytes → List Bytes
unfolding split_first
fields s = let (front, parts) = split_first s in close_part front parts

unfoldable pub join : List Bytes → Bytes
join [] = []
join (p ∷ []) = p
join (p ∷ q ∷ ps) = p ++ (separator ∷ join (q ∷ ps))

-- One part on the stack of kept parts, the newest first.
unfoldable pub push_part : Bool → List Bytes → Bytes → List Bytes
push_part rooted [] p =
    if bytes_eq p dot then [] else if bytes_eq p dot_dot && rooted then [] else p ∷ []
push_part rooted (q ∷ stack) p =
    if bytes_eq p dot
    then q ∷ stack
    else if bytes_eq p dot_dot
    then (if bytes_eq q dot_dot then p ∷ q ∷ stack else stack)
    else p ∷ q ∷ stack

unfoldable pub keep_parts : Bool → List Bytes → List Bytes → List Bytes
keep_parts rooted stack [] = stack
keep_parts rooted stack (p ∷ ps) = keep_parts rooted (push_part rooted stack p) ps

unfoldable pub reversed : List Bytes → List Bytes → List Bytes
reversed [] acc = acc
reversed (p ∷ ps) acc = reversed ps (p ∷ acc)

-- The parts of the cleaned path.
unfoldable pub clean_parts : Bytes → List Bytes
unfolding is_abs fields push_part keep_parts reversed bytes_eq
clean_parts s = reversed (keep_parts (is_abs s) [] (fields s)) []

abbrev or_dot : Bytes → Bytes
or_dot [] = dot
or_dot (c ∷ s) = c ∷ s

unfoldable pub clean : Bytes → Bytes
unfolding clean_parts join
clean s = if is_abs s then separator ∷ join (clean_parts s) else or_dot (join (clean_parts s))

-- What stands up to the last separator, that one included, and what stands behind it.
abbrev split_last : Option (Bytes × Bytes) → ℕ → Bytes → Bytes × Bytes
split_last (some (d, f)) c s = (c ∷ d, f)
split_last none c s = if c == separator then (c ∷ [], s) else ([], c ∷ s)

unfoldable pub has_separator : Bytes → Bool
has_separator [] = false
has_separator (c ∷ s) = if c == separator then true else has_separator s

unfoldable pub split_path : Bytes → Bytes × Bytes
unfolding has_separator
split_path [] = ([], [])
split_path (c ∷ s) = split_last (if has_separator s then some (split_path s) else none) c s

unfoldable pub dir : Bytes → Bytes
unfolding split_path clean
dir s = clean (split_path s).0

abbrev before_trimmed : ℕ → Bytes → Bytes
before_trimmed c [] = if c == separator then [] else c ∷ []
before_trimmed c (d ∷ t) = c ∷ d ∷ t

-- The text without its trailing separators.
unfoldable pub trim_right : Bytes → Bytes
trim_right [] = []
trim_right (c ∷ s) = before_trimmed c (trim_right s)

abbrev or_root : Bytes → Bytes
or_root [] = separator ∷ []
or_root (c ∷ s) = c ∷ s

unfoldable pub base : Bytes → Bytes
unfolding split_path trim_right
base [] = dot
base (c ∷ s) = or_root (split_path (trim_right (c ∷ s))).1

-- `Join` of two names that are not empty.
unfoldable pub join_two : Bytes → Bytes → Bytes
unfolding clean
join_two a b = clean (a ++ (separator ∷ b))

-- What is left of both after their common parts.
unfoldable pub strip_common : List Bytes → List Bytes → List Bytes × List Bytes
unfolding bytes_eq
strip_common (b ∷ bs) (t ∷ ts) =
    let rest = strip_common bs ts in if bytes_eq b t then rest else (b ∷ bs, t ∷ ts)
strip_common bs ts = (bs, ts)

unfoldable pub ups : List Bytes → List Bytes
ups [] = []
ups (b ∷ bs) = dot_dot ∷ ups bs

abbrev rel_parts : List Bytes → List Bytes → Option Bytes
rel_parts [] ts = some (or_dot (join ts))
rel_parts (b ∷ bs) ts = if bytes_eq b dot_dot then none else some (join (ups (b ∷ bs) ++ ts))

abbrev bool_eq : Bool → Bool → Bool
bool_eq true b = b
bool_eq false b = not b

-- `none` is the error "can't make target relative to base".
unfoldable pub rel : Bytes → Bytes → Option Bytes
unfolding clean_parts join strip_common ups
rel basepath target =
    if not (bool_eq (is_abs basepath) (is_abs target))
    then none
    else let (bs, ts) = strip_common (clean_parts basepath) (clean_parts target) in rel_parts bs ts

clean_test : clean (codes "/a/./b/../../c//d/") ≡ codes "/c/d"
unfolding clean
clean_test = refl

clean_rel_test : clean (codes "a/../../b") ≡ codes "../b"
unfolding clean
clean_rel_test = refl

dir_test : dir (codes "/a/b") ≡ codes "/a"
unfolding dir
dir_test = refl

base_test : base (codes "/a/bc//") ≡ codes "bc"
unfolding base
base_test = refl

rel_test : rel (codes "/a/b/c") (codes "/a/d") ≡ some (codes "../../d")
unfolding rel
rel_test = refl

rel_self_test : rel (codes "/a/b") (codes "/a/b/") ≡ some (codes ".")
unfolding rel
rel_self_test = refl
