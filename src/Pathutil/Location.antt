-- ===== src/Pathutil/Location.antt =====
-- internal/pathutil/location.go and location_unix.go. `graphic` is unicode.IsGraphic.
pub mod Plain
use shell_picker.Base.{
  ℕ, Bool, true, false, ◌==◌, ◌||◌, if◌then◌else◌, Option, none, some, List, [], ◌∷◌, ◌++◌, Bytes,
  bytes_eq, codes, Result, ok, err, any, not, ◌&&◌,
}
use shell_picker.Protocol.Display.{escape_display}
use shell_picker.Pathutil.Filepath.{separator, dot, dot_dot, is_abs, fields, trim_right, dir, rel}

-- `Kind`; the zero value is `no_location`.
pub data LocationKind : Type 0 where
  no_location filesystem drives : LocationKind

pub record Location : Type 0 where
  pub kind : LocationKind
  pub path : Bytes

-- `Filesystem`, `Drives` and `Root`.
abbrev pub at_path : Bytes → Location
at_path path = record { kind = filesystem; path = path }

abbrev pub at_drives : Location
at_drives = record { kind = drives; path = [] }

abbrev pub root : Location
root = at_path (separator ∷ [])

abbrev parent_of : LocationKind → Bytes → Location
parent_of filesystem path = at_path (dir path)
parent_of _ path = root

unfoldable pub parent : Location → Location
unfolding dir
parent location = parent_of location.kind location.path

abbrev guard_dash : Bytes → Bytes
guard_dash [] = []
guard_dash (c ∷ s) = if c == b'-' then codes "./" ++ (c ∷ s) else c ∷ s

abbrev or_target : Option Bytes → Bytes → Bytes
or_target none target = target
or_target (some r) target = guard_dash r

unfoldable pub relative : Bytes → Bytes → Bytes
unfolding rel
relative base target = or_target (rel base target) target

-- `strings.HasPrefix`.
unfoldable pub has_prefix : Bytes → Bytes → Bool
has_prefix s [] = true
has_prefix [] (c ∷ p) = false
has_prefix (d ∷ s) (c ∷ p) = d == c && has_prefix s p

abbrev compacted : Option Bytes → Bytes → Bytes
compacted none path = path
compacted (some r) path =
    if bytes_eq r dot_dot || has_prefix r (codes "../")
    then path
    else if bytes_eq r dot
    then codes "~"
    else codes "~/" ++ r

unfoldable pub compact_home : Bytes → Bytes → Bytes
unfolding rel has_prefix bytes_eq
compact_home path home =
    if not (is_abs path) || not (is_abs home) then path else compacted (rel home path) path

module _ (graphic : ℕ → Bool) where
  abbrev pub path_display : Bytes → Bytes
  path_display [] = separator ∷ []
  path_display (c ∷ s) = escape_display graphic (c ∷ s) ++ (separator ∷ [])

  abbrev pub display_of : LocationKind → Bytes → Bytes
  display_of filesystem path = path_display (trim_right path)
  display_of _ path = codes "Drives/"

  unfoldable pub prompt_display : Location → Bytes
  unfolding trim_right
  prompt_display location = display_of location.kind location.path

  abbrev pub display_home : LocationKind → LocationKind → Location → Location → Bytes
  display_home filesystem filesystem location home =
      prompt_display (at_path (compact_home location.path home.path))
  display_home _ _ location home = prompt_display location

  unfoldable pub prompt_display_home : Location → Location → Bytes
  prompt_display_home location home = display_home location.kind home.kind location home

pub data AddError : Type 0 where
  invalid_add : AddError

abbrev pub is_filesystem : LocationKind → Bool
is_filesystem filesystem = true
is_filesystem _ = false

abbrev pub is_nil : Bytes → Bool
is_nil [] = true
is_nil (c ∷ s) = false

unfoldable pub validate_add_query : Location → Bytes → Result AddError (Unit {0})
unfolding bytes_eq fields is_abs
validate_add_query base query =
    if not (is_filesystem base.kind) || is_nil query || is_abs query
    then err invalid_add
    else if any (λ part. bytes_eq part dot_dot) (fields query)
    then err invalid_add
    else ok tt
