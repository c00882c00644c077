-- ===== src/Fzf/Options.antt =====
-- internal/fzf/options.go: the arguments that fzf is started with.
pub mod Listen
use shell_picker.Base.{
  ℕ, Bool, true, false, not, ◌&&◌, ◌||◌, ◌==◌, ltb, if◌then◌else◌, List, [], ◌∷◌, ◌++◌, map, Bytes,
  bytes_eq, codes, all, drop, length, Result, ok, err, ◌>>◌,
}
use shell_picker.Base.Decimal.{decimal, number, first_of, is_digit}
use shell_picker.Protocol.Types.{
  Picker, cd, cp, other_picker, mode_insert, mode_add, escape, forward, parent, slash, home, enter,
  restore_view,
}
use shell_picker.Pathutil.Location.{has_prefix}
use shell_picker.Fzf.Action.{
  normal_printable_keys, start_unbind, abort_action, transform_event, trigger, binding,
}

-- `OptionsConfig`; an address that is not set is empty.
pub record OptionsConfig : Type 0 where
  pub picker : Picker
  pub prompt : Bytes
  pub header : Bytes
  pub listen_address : Bytes

pub data OptionsError : Type 0 where
  invalid_listen_address : OptionsError

abbrev pub local_prefix : Bytes
local_prefix = codes "127.0.0.1:"

abbrev pub is_empty : Bytes → Bool
is_empty [] = true
is_empty (c ∷ s) = false

-- The port of `validateListenAddress`; a number above the greatest int is above 65535 as well.
unfoldable pub validate_port : Bytes → Result OptionsError (Unit {0})
validate_port text =
    if is_empty text || (ltb 1 (length text) && first_of text == b'0')
    then err invalid_listen_address
    else if not (all is_digit text)
    then err invalid_listen_address
    else if number text == 0
        || ltb 65535 (number text)
        || not (bytes_eq (decimal (number text)) text)
    then err invalid_listen_address
    else ok tt

-- `validateListenAddress`.
unfoldable pub validate_listen_address : Bytes → Result OptionsError (Unit {0})
unfolding has_prefix validate_port
validate_listen_address address =
    if has_prefix address local_prefix
    then validate_port (drop (length local_prefix) address)
    else err invalid_listen_address

abbrev pub picker_info_command : Picker → Bytes
picker_info_command cd = codes "--info-command=i:cd"
picker_info_command _ = codes "--info-command=i:cp"

abbrev transform_display : Bytes
transform_display = codes "transform(d)"

abbrev pub head_options : OptionsConfig → List Bytes
head_options config =
    codes "--ansi"
    ∷ codes "--style=full"
    ∷ codes "--layout=reverse"
    ∷ (codes "--delimiter=" ++ (9 ∷ []))
    ∷ codes "--with-nth=2"
    ∷ codes "--keep-right"
    ∷ codes "--jump-labels=g"
    ∷ codes "--read0"
    ∷ codes "--print0"
    ∷ (codes "--prompt=" ++ config.prompt)
    ∷ (codes "--header=" ++ config.header)
    ∷ codes "--header-first"
    ∷ []

unfoldable pub info_options : OptionsConfig → Bool → Bool → List Bytes
info_options config listen windows =
    if listen
    then codes "--info=hidden"
      ∷ codes "--list-label=0/0"
      ∷ (codes "--listen=" ++ config.listen_address)
      ∷ []
    else if windows
    then codes "--info=inline-right" ∷ []
    else picker_info_command config.picker ∷ []

unfoldable pub key_options : Bool → List Bytes
unfolding binding transform_event trigger abort_action
key_options listen =
    codes "--preview=p"
    ∷ codes "--preview-window=right:50%:wrap:<80(down:50%:wrap)"
    ∷ binding (codes "enter") (transform_event enter ∷ [])
    ∷ binding (codes "esc") (transform_event escape ∷ [])
    ∷ binding (codes "i") (transform_event mode_insert ∷ [])
    ∷ binding (codes "a") (transform_event mode_add ∷ [])
    ∷ binding (if listen then codes "ctrl-l,right" else codes "ctrl-l,tab,right")
        (transform_event forward ∷ [])
    ∷ binding (codes "ctrl-h,left") (transform_event parent ∷ [])
    ∷ binding (codes "/") (transform_event slash ∷ [])
    ∷ binding (codes "~") (transform_event home ∷ [])
    ∷ binding (codes "g") (codes "jump" ∷ [])
    ∷ binding (codes "G") (codes "last" ∷ [])
    ∷ binding (codes "jump") (codes "first" ∷ [])
    ∷ binding (codes "j") (codes "down" ∷ [])
    ∷ binding (codes "k") (codes "up" ∷ [])
    ∷ binding (codes "h") (trigger (codes "ctrl-h") ∷ [])
    ∷ binding (codes "l") (trigger (if listen then codes "right" else codes "tab") ∷ [])
    ∷ binding (codes "q") (abort_action ∷ [])
    ∷ binding (codes "ctrl-u") (codes "half-page-up" ∷ [])
    ∷ binding (codes "ctrl-d") (codes "half-page-down" ∷ [])
    ∷ binding (codes ",") (codes "preview-half-page-up" ∷ [])
    ∷ binding (codes ".") (codes "preview-half-page-down" ∷ [])
    ∷ binding (codes "change") (transform_event restore_view ∷ [])
    ∷ []

-- The display callback runs only where fzf shows no label of the sidecar, and not on Windows.
unfoldable pub start_options : Bool → Bool → List Bytes
unfolding binding start_unbind
start_options listen windows =
    if listen || windows
    then binding (codes "start") (start_unbind ∷ []) ∷ []
    else binding (codes "start") (start_unbind ∷ transform_display ∷ [])
      ∷ binding (codes "resize") (transform_display ∷ [])
      ∷ []

abbrev pub ignored_keys : List Bytes
ignored_keys = map (λ key. binding key (codes "ignore" ∷ [])) normal_printable_keys

abbrev pub last_options : Picker → List Bytes
last_options cd =
    binding (codes "space") (codes "clear-multi" ∷ codes "toggle" ∷ [])
    ∷ codes "--sort"
    ∷ codes "--print-query"
    ∷ codes "--multi=1"
    ∷ []
last_options _ =
    binding (codes "space") (codes "toggle" ∷ []) ∷ codes "--no-sort" ∷ codes "--multi" ∷ []

abbrev pub all_options : OptionsConfig → Bool → Bool → List Bytes
all_options config listen windows =
    head_options config
    ++ (info_options config listen windows
        ++ (key_options listen
            ++ (start_options listen windows ++ (ignored_keys ++ last_options config.picker))))

abbrev pub checked_options : OptionsConfig → Bool → Result OptionsError (List Bytes)
checked_options config windows =
    if is_empty config.listen_address
    then ok (all_options config false windows)
    else validate_listen_address config.listen_address >> ok (all_options config true windows)

abbrev pub options_by : Picker → OptionsConfig → Bool → Result OptionsError (List Bytes)
options_by other_picker config windows = ok []
options_by _ config windows = checked_options config windows

-- `optionsForPlatform`; only whether the system is Windows matters.
unfoldable pub options_for_platform : OptionsConfig → Bool → Result OptionsError (List Bytes)
unfolding info_options key_options start_options validate_listen_address binding
options_for_platform config windows = options_by config.picker config windows
