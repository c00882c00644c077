-- ===== src/Fzf/Action.antt =====
-- internal/fzf/action.go: the text of single actions.
use shell_picker.Base.{
  ℕ, zero, suc, ◌+◌, Bool, not, ◌&&◌, ◌||◌, ◌==◌, if◌then◌else◌, List, [], ◌∷◌, ◌++◌, Bytes,
  bytes_eq, codes, any, Result, ok, err,
}
use shell_picker.Protocol.Types.{
  Mode, insert, normal, add, Opcode, mode_insert, mode_add, escape, forward, parent, slash, home,
  enter, restore_view, other_opcode,
}

-- `strings.Join(parts, sep)`.
unfoldable pub join_by : Bytes → List Bytes → Bytes
join_by sep [] = []
join_by sep (p ∷ []) = p
join_by sep (p ∷ q ∷ ps) = p ++ (sep ++ join_by sep (q ∷ ps))

abbrev keep_text : Bytes → List Bytes → List Bytes
keep_text [] parts = parts
keep_text (c ∷ s) parts = (c ∷ s) ∷ parts

unfoldable pub nonempty : List Bytes → List Bytes
nonempty [] = []
nonempty (t ∷ ts) = keep_text t (nonempty ts)

-- `sequence`: an action is its text, and the empty ones are left out.
unfoldable pub sequence : List Bytes → Bytes
unfolding join_by nonempty
sequence actions = join_by (codes "+") (nonempty actions)

unfoldable pub uses_alternate_delimiter : Bytes → Bool
unfolding bytes_eq
uses_alternate_delimiter key =
    bytes_eq key (codes "\\") || bytes_eq key (codes "(") || bytes_eq key (codes ")")

-- `writeActionKey`: a backslash before a backslash or a comma.
unfoldable pub encode_action_key : Bytes → Bytes
encode_action_key [] = []
encode_action_key (c ∷ s) =
    if c == b'\\' || c == b',' then b'\\' ∷ c ∷ encode_action_key s else c ∷ encode_action_key s

unfoldable pub ordinary_keys : List Bytes → List Bytes
ordinary_keys [] = []
ordinary_keys (k ∷ ks) =
    if uses_alternate_delimiter k then ordinary_keys ks else encode_action_key k ∷ ordinary_keys ks

unfoldable pub alternate_keys : List Bytes → List Bytes
alternate_keys [] = []
alternate_keys (k ∷ ks) =
    if uses_alternate_delimiter k then k ∷ alternate_keys ks else alternate_keys ks

abbrev ordinary_text : Bytes → List Bytes → Bytes
ordinary_text name keys = name ++ (codes "(" ++ (join_by (codes ",") keys ++ codes ")"))

abbrev alternate_text : Bytes → List Bytes → Bytes
alternate_text name keys = name ++ (codes "[" ++ (join_by (codes ",") keys ++ codes "]"))

abbrev key_action_text : Bytes → List Bytes → List Bytes → Bytes
key_action_text name ordinary [] = ordinary_text name ordinary
key_action_text name [] (k ∷ ks) = alternate_text name (k ∷ ks)
key_action_text name (o ∷ os) (k ∷ ks) =
    ordinary_text name (o ∷ os) ++ (codes "+" ++ alternate_text name (k ∷ ks))

-- `keyAction`: the keys that cannot stand in parentheses go into brackets.
unfoldable pub key_action : Bytes → List Bytes → Bytes
unfolding uses_alternate_delimiter encode_action_key ordinary_keys alternate_keys join_by
key_action name keys = key_action_text name (ordinary_keys keys) (alternate_keys keys)

abbrev pub navigation_keys : List Bytes
navigation_keys =
    codes "ctrl-l"
    ∷ codes "tab"
    ∷ codes "right"
    ∷ codes "ctrl-h"
    ∷ codes "left"
    ∷ codes "/"
    ∷ codes "~"
    ∷ []

abbrev pub list_paging_keys : List Bytes
list_paging_keys = codes "ctrl-u" ∷ codes "ctrl-d" ∷ []

abbrev pub normal_command_keys : List Bytes
normal_command_keys =
    codes "h"
    ∷ codes "j"
    ∷ codes "k"
    ∷ codes "l"
    ∷ codes "i"
    ∷ codes "a"
    ∷ codes "q"
    ∷ codes "space"
    ∷ codes "g"
    ∷ codes "G"
    ∷ codes "jump"
    ∷ []

abbrev pub normal_paging_keys : List Bytes
normal_paging_keys = codes "," ∷ codes "." ∷ []

-- The keys that the loop of buildNormalPrintableKeys leaves out.
unfoldable pub is_active_key : ℕ → Bool
is_active_key c = any (λ k. k == c) (codes "hjkliaqgG/~,.")

-- The characters from `c` on, `n` of them, that are not active.
unfoldable pub printable_from : ℕ → ℕ → List Bytes
printable_from c zero = []
printable_from c (suc n) =
    let rest = printable_from (c + 1) n in if is_active_key c then rest else (c ∷ []) ∷ rest

-- `buildNormalPrintableKeys`, from '!' to '~'.
unfoldable pub normal_printable_keys : List Bytes
unfolding is_active_key printable_from
normal_printable_keys = printable_from b'!' 94

unfoldable pub normal_keys : List Bytes
unfolding normal_printable_keys
normal_keys = normal_command_keys ++ (normal_paging_keys ++ normal_printable_keys)

unfoldable pub rebind : Mode → Bytes
rebind insert = key_action (codes "rebind") (navigation_keys ++ list_paging_keys)
rebind normal = key_action (codes "rebind") (navigation_keys ++ (list_paging_keys ++ normal_keys))
rebind _ = []

unfoldable pub unbind : Mode → Bytes
unbind insert = key_action (codes "unbind") normal_keys
unbind add = key_action (codes "unbind") (navigation_keys ++ (list_paging_keys ++ normal_keys))
unbind _ = []

unfoldable pub start_unbind : Bytes
start_unbind = key_action (codes "unbind") (normal_keys ++ (codes "change" ∷ []))

-- `abort`: cancel first releases a wait.
unfoldable pub abort_action : Bytes
unfolding sequence
abort_action = sequence (codes "cancel" ∷ codes "abort" ∷ [])

pub data ActionError : Type 0 where
  invalid_prompt empty_header control_in_argument invalid_put : ActionError
  invalid_path_without_slash reload_and_restore invalid_search invalid_rebind : ActionError

-- `changeModePrompt`.
unfoldable pub change_mode_prompt : Bytes → Result ActionError Bytes
unfolding bytes_eq
change_mode_prompt prompt =
    if bytes_eq prompt (codes "[I] ")
      || bytes_eq prompt (codes "[N] ")
      || bytes_eq prompt (codes "[A] ")
      || bytes_eq prompt (codes "[A!] ")
    then ok (codes "change-prompt(" ++ (prompt ++ codes ")"))
    else err invalid_prompt

-- `validateActionArgument`.
unfoldable pub has_control : Bytes → Bool
has_control s = any (λ c. c == b'\r' || c == b'\n' || c == 0) s

unfoldable pub change_header : Bytes → Result ActionError Bytes
unfolding has_control
change_header [] = err empty_header
change_header (c ∷ s) =
    if has_control (c ∷ s) then err control_in_argument else ok (codes "change-header:" ++ (c ∷ s))

unfoldable pub put_action : Bytes → Result ActionError Bytes
unfolding bytes_eq
put_action text =
    if not (bytes_eq text (codes "/")) && not (bytes_eq text (codes "~"))
    then err invalid_put
    else ok (codes "put(" ++ (text ++ codes ")"))

-- `string(opcode)`.
unfoldable pub opcode_text : Opcode → Bytes
opcode_text mode_insert = codes "mi"
opcode_text mode_add = codes "ma"
opcode_text escape = codes "es"
opcode_text forward = codes "fw"
opcode_text parent = codes "up"
opcode_text slash = codes "sl"
opcode_text home = codes "hm"
opcode_text enter = codes "en"
opcode_text restore_view = codes "rs"
opcode_text other_opcode = []

-- `transformEvent`, `trigger` and `binding`.
unfoldable pub transform_event : Opcode → Bytes
unfolding opcode_text
transform_event opcode = codes "transform(e:" ++ (opcode_text opcode ++ codes ")")

unfoldable pub trigger : Bytes → Bytes
trigger key = codes "trigger(" ++ (key ++ codes ")")

unfoldable pub binding : Bytes → List Bytes → Bytes
unfolding sequence
binding keys actions = codes "--bind=" ++ (keys ++ (codes ":" ++ sequence actions))
