-- ===== src/Process/Env.antt =====
-- internal/process/env.go: the environment that a child process gets. `to_upper` and `equal_fold`
-- are strings.ToUpper and strings.EqualFold; `windows` says for which system it is built. A map is
-- the list of its entries in the order in which they are visited.
pub mod Parse
pub mod Clean
use shell_picker.Base.{
  ℕ, ◌-◌, Bool, true, false, not, ◌&&◌, ◌||◌, ◌==◌, leb, ltb, if◌then◌else◌, Option, none, some,
  List, [], ◌∷◌, ◌++◌, map, Bytes, bytes_eq, codes, any, take, length, cut, Result, ok, err,
}
use shell_picker.Pathutil.Location.{has_prefix}

-- `environmentEntry`.
pub record Entry : Type 0 where
  pub raw : Bytes
  pub name : Bytes
  pub value : Bytes

pub data EntryError : Type 0 where
  empty_entry has_nul no_equals invalid_pseudo_key empty_name : EntryError

abbrev pub blocked_environment : List Bytes
blocked_environment =
    codes "FZF_DEFAULT_OPTS"
    ∷ codes "FZF_DEFAULT_OPTS_FILE"
    ∷ codes "FZF_DEFAULT_COMMAND"
    ∷ codes "FZF_KEY"
    ∷ codes "FZF_QUERY"
    ∷ codes "FZF_CURRENT_ITEM"
    ∷ codes "SHELL_PICKER_TRACE_PATH"
    ∷ codes "SHELL_PICKER_TRACE_SESSION"
    ∷ []

abbrev own_prefix : Bytes
own_prefix = codes "SHELL_PICKER_"

-- `isDrivePseudo`, of the entry's name.
abbrev pub is_drive_pseudo : Bytes → Bool
is_drive_pseudo [] = false
is_drive_pseudo (c ∷ s) = c == b'='

unfoldable pub ascii_letter : ℕ → Bool
ascii_letter c = (leb 65 c && leb c 90) || (leb 97 c && leb c 122)

abbrev ascii_upper : ℕ → ℕ
ascii_upper c = if leb 97 c && leb c 122 then c - 32 else c

unfoldable pub ascii_equal_fold : ℕ → ℕ → Bool
ascii_equal_fold left right = ascii_upper left == ascii_upper right

-- `validWindowsDriveEnvironmentEntry`.
unfoldable pub valid_drive_entry : Bytes → Bytes → Bool
valid_drive_entry (e ∷ letter ∷ colon ∷ []) (v ∷ c ∷ slash ∷ rest) =
    e == b'='
    && ascii_letter letter
    && colon == b':'
    && ascii_equal_fold v letter
    && c == b':'
    && (slash == 92 || slash == b'/')
valid_drive_entry name value = false

abbrev pub is_nil : Bytes → Bool
is_nil [] = true
is_nil (c ∷ s) = false

abbrev pub checked_entry : Bytes → Bytes → Bytes → Result EntryError Entry
checked_entry raw name value =
    if is_nil name
    then err empty_name
    else if is_drive_pseudo name && not (valid_drive_entry name value)
    then err invalid_pseudo_key
    else ok (record { raw = raw; name = name; value = value })

abbrev pub pseudo_entry : Bytes → Option (Bytes × Bytes) → Result EntryError Entry
pseudo_entry raw none = err invalid_pseudo_key
pseudo_entry raw (some (name, value)) = checked_entry raw (b'=' ∷ name) value

abbrev pub split_entry : Bytes → Option (Bytes × Bytes) → Result EntryError Entry
split_entry raw none = err no_equals
split_entry raw (some ([], rest)) = pseudo_entry raw (cut b'=' rest)
split_entry raw (some (c ∷ name, value)) = checked_entry raw (c ∷ name) value

-- `parseEnvironmentEntry`.
unfoldable pub parse_environment_entry : Bytes → Result EntryError Entry
parse_environment_entry raw =
    if is_nil raw
    then err empty_entry
    else if any (λ c. c == 0) raw
    then err has_nul
    else split_entry raw (cut b'=' raw)

-- The order of strings.
unfoldable pub bytes_lt : Bytes → Bytes → Bool
bytes_lt s [] = false
bytes_lt [] (d ∷ t) = true
bytes_lt (c ∷ s) (d ∷ t) = ltb c d || (c == d && bytes_lt s t)

module _ (to_upper : Bytes → Bytes) (equal_fold : Bytes → Bytes → Bool) (windows : Bool) where
  abbrev pub name_key : Bytes → Bytes
  name_key name = if windows then to_upper name else name

  abbrev pub same_name : Bytes → Bytes → Bool
  same_name left right = bytes_eq (name_key left) (name_key right)

  -- The order of `sortEnvironmentEntries`.
  unfoldable pub entry_lt : Entry → Entry → Bool
  entry_lt a b =
      if not (bytes_eq (name_key a.name) (name_key b.name))
      then bytes_lt (name_key a.name) (name_key b.name)
      else if not (bytes_eq a.name b.name)
      then bytes_lt a.name b.name
      else bytes_lt a.raw b.raw

  -- A stable sort: an entry goes before the first that is greater.
  unfoldable pub insert_entry : Entry → List Entry → List Entry
  insert_entry e [] = e ∷ []
  insert_entry e (f ∷ fs) = if entry_lt f e then f ∷ insert_entry e fs else e ∷ f ∷ fs

  unfoldable pub sort_entries : List Entry → List Entry
  unfolding insert_entry
  sort_entries [] = []
  sort_entries (e ∷ es) = insert_entry e (sort_entries es)

  -- Of neighbours with one name the last stays.
  unfoldable pub unique_entries : List Entry → List Entry
  unique_entries [] = []
  unique_entries (e ∷ []) = e ∷ []
  unique_entries (e ∷ f ∷ fs) =
      let rest = unique_entries (f ∷ fs) in if same_name e.name f.name then rest else e ∷ rest

  -- An entry that parses, and is no drive's pseudo-entry but on Windows.
  abbrev pub admitted_by : Result EntryError Entry → Option Entry
  admitted_by (err e) = none
  admitted_by (ok e) = if is_drive_pseudo e.name && not windows then none else some e

  abbrev pub admitted : Bytes → Option Entry
  admitted raw = admitted_by (parse_environment_entry raw)

  abbrev pub cons_if : Option Entry → List Entry → List Entry
  cons_if none es = es
  cons_if (some e) es = e ∷ es

  abbrev pub parsed_controlled : List (Bytes × Bytes) → List Entry
  parsed_controlled [] = []
  parsed_controlled ((name, value) ∷ rest) =
      cons_if (admitted (name ++ b'=' ∷ value)) (parsed_controlled rest)

  unfoldable pub controlled_entries : List (Bytes × Bytes) → List Entry
  unfolding sort_entries unique_entries
  controlled_entries controlled = unique_entries (sort_entries (parsed_controlled controlled))

  unfoldable pub blocked_key : Bytes → Bool
  unfolding has_prefix bytes_eq
  blocked_key key =
      if windows
      then (leb (length own_prefix) (length key)
          && equal_fold (take (length own_prefix) key) own_prefix)
        || any (λ blocked. equal_fold key blocked) blocked_environment
      else has_prefix key own_prefix || any (λ blocked. bytes_eq key blocked) blocked_environment

  unfoldable pub controlled_key : List Entry → Bytes → Bool
  controlled_key entries name = any (λ e. same_name e.name name) entries

  abbrev is_key : Bytes → Option Entry → Bool
  is_key name none = false
  is_key name (some e) = same_name e.name name

  -- A later entry has the name, which matters on Windows.
  abbrev again : Bytes → List Bytes → Bool
  again name later = any (λ raw. is_key name (admitted raw)) later

  abbrev pub keeps : List Entry → List Bytes → Option Entry → Bool
  keeps entries later none = false
  keeps entries later (some e) =
      not (blocked_key e.name || controlled_key entries e.name)
      && not (windows && again e.name later)

  abbrev pub kept : List Entry → List Bytes → List Bytes
  kept entries [] = []
  kept entries (raw ∷ later) =
      let rest = kept entries later in
      if keeps entries later (admitted raw) then raw ∷ rest else rest

  abbrev pub raws : List Entry → List Bytes
  raws es = map (λ e. e.raw) es

  -- `SanitizeEnv`.
  unfoldable pub sanitize_env : List Bytes → List (Bytes × Bytes) → List Bytes
  unfolding controlled_entries parse_environment_entry blocked_key controlled_key
  sanitize_env inherited controlled =
      let entries = controlled_entries controlled in kept entries inherited ++ raws entries

  -- `validateEnvironment`: nil, or an error.
  unfoldable pub validate_environment : List Bytes → Bool
  validate_environment [] = true
  validate_environment (raw ∷ rest) = elim (admitted raw) [
    | none ↦ false
    | some e ↦ validate_environment rest
  ]
