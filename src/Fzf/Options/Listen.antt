-- ===== src/Fzf/Options/Listen.antt =====
-- The addresses on which fzf may listen (internal/fzf/options.go).
use shell_picker.Base.{
  ℕ, ◌≡◌, ◌≢◌, ◌≤◌, ◌<◌, refl, sym, ◌∙◌, ap, true, false, [], ◌∷◌, ◌++◌, Bytes, bytes_eq,
  bytes_eq_refl, eq_of_bytes_eq, all, drop, length, ok, Bool, List, All, All-append, not, codes,
  if◌then◌else◌, subst, ok_eq, >>=-eq-ok, ◌>>◌, arith, Bool-cases, inl, inr,
}
use shell_picker.Base.Decimal.{
  decimal, number, is_digit, number-decimal, decimal-ne-nil, decimal-digits, decimal-leading,
}
use shell_picker.Callback.Grammar.RoundTrip.{all-is_digit}
use shell_picker.Pathutil.Location.{has_prefix}
use shell_picker.Fzf.Action.{binding, normal_printable_keys}
use shell_picker.Protocol.Types.{Picker, cd, cp, other_picker}
use shell_picker.Fzf.Options.{
  local_prefix, is_empty, validate_port, validate_listen_address, OptionsConfig, head_options,
  info_options, key_options, start_options, ignored_keys, last_options, all_options, options_by,
  options_for_platform, picker_info_command,
}

has_prefix-drop : (s p : Bytes) → has_prefix s p ≡ true → s ≡ p ++ drop (length p) s
unfolding has_prefix
has_prefix-drop s [] h = refl
has_prefix-drop [] (c ∷ p) h = cc
has_prefix-drop (d ∷ s) (c ∷ p) h = ground (arith, has_prefix-drop s p)

validate_port_sound :
    (text : Bytes)
    → validate_port text ≡ ok tt
    → (bytes_eq (decimal (number text)) text ≡ true) × (0 < number text) × (number text ≤ 65535)
unfolding validate_port
validate_port_sound text h = ground arith

listen_digits : (port : ℕ) → all is_digit (decimal port) ≡ true
listen_digits port = all-is_digit (decimal port) (decimal-digits port)

is_empty-decimal : (s : Bytes) → s ≢ [] → is_empty s ≡ false
is_empty-decimal [] h = absurd (h refl)
is_empty-decimal (c ∷ s) h = refl

-- Every port is accepted on the local address.
pub validate_listen_address-decimal :
    (port : ℕ)
    → 0 < port
    → port ≤ 65535
    → validate_listen_address (local_prefix ++ decimal port) ≡ ok tt
unfolding validate_listen_address has_prefix validate_port
validate_listen_address-decimal port h k = ground (
  arith,
  listen_digits port,
  number-decimal port,
  is_empty-decimal (decimal port) (decimal-ne-nil port),
  decimal-leading port h,
  bytes_eq_refl (decimal port),
)

-- An accepted address is the local one, at a port from 1 to 65535 in its decimal text.
pub validate_listen_address_sound :
    (address : Bytes)
    → validate_listen_address address ≡ ok tt
    → (port : ℕ) × (address ≡ local_prefix ++ decimal port) × (0 < port) × (port ≤ 65535)
unfolding validate_listen_address
validate_listen_address_sound address h = elim (Bool-cases (has_prefix address local_prefix)) [
  | inr e ↦ absurd (ground arith)
  | inl e ↦
      let text = drop (length local_prefix) address in
      let (same, low, high) = validate_port_sound text (ground arith) in
      (
        number text,
        has_prefix-drop address local_prefix e
            ∙ ap (λ t. local_prefix ++ t) (sym (eq_of_bytes_eq (decimal (number text)) text same)),
        low,
        high,
      )
]

-- An argument of fzf says nothing on listening, or it is the local address at a port.
abbrev pub IsLocal : Bytes → Type 0
IsLocal argument =
    has_prefix argument (codes "--listen") ≡ true
    → (port : ℕ) × (argument ≡ codes "--listen=" ++ (local_prefix ++ decimal port))
      × (0 < port)
      × (port ≤ 65535)

abbrev Silent : List Bytes → Type 0
Silent arguments = all (λ a. not (has_prefix a (codes "--listen"))) arguments ≡ true

Silent-IsLocal : (arguments : List Bytes) → Silent arguments → All IsLocal arguments
Silent-IsLocal [] h = tt
Silent-IsLocal (a ∷ arguments) h =
    ((λ k. absurd (ground arith)), Silent-IsLocal arguments (ground arith))

head_options-Silent : (config : OptionsConfig) → Silent (head_options config)
unfolding has_prefix
head_options-Silent config = refl

key_options-Silent : (listen : Bool) → Silent (key_options listen)
unfolding has_prefix key_options
key_options-Silent true = refl
key_options-Silent false = refl

start_options-Silent : (listen windows : Bool) → Silent (start_options listen windows)
unfolding has_prefix start_options
start_options-Silent true windows = refl
start_options-Silent false true = refl
start_options-Silent false false = refl

ignored_keys-Silent : Silent ignored_keys
unfolding has_prefix binding normal_printable_keys
ignored_keys-Silent = refl

last_options-Silent : (picker : Picker) → Silent (last_options picker)
unfolding has_prefix binding
last_options-Silent cd = refl
last_options-Silent cp = refl
last_options-Silent other_picker = refl

picker_info_command-IsLocal : (picker : Picker) → IsLocal (picker_info_command picker)
unfolding has_prefix
picker_info_command-IsLocal cd = λ k. absurd (ground arith)
picker_info_command-IsLocal cp = λ k. absurd (ground arith)
picker_info_command-IsLocal other_picker = λ k. absurd (ground arith)

info_options-IsLocal :
    (config : OptionsConfig) (listen windows : Bool)
    → (listen ≡ true → validate_listen_address config.listen_address ≡ ok tt)
    → All IsLocal (info_options config listen windows)
unfolding info_options has_prefix
info_options-IsLocal config true windows h =
    let (port, address, low, high) = validate_listen_address_sound config.listen_address (h refl) in
    let told = ap (λ a. codes "--listen=" ++ a) address in
    (
      (λ k. absurd (ground arith)),
      ((λ k. absurd (ground arith)), ((λ k. (port, told, low, high)), tt)),
    )
info_options-IsLocal config false true h = ((λ k. absurd (ground arith)), tt)
info_options-IsLocal config false false h = (picker_info_command-IsLocal config.picker, tt)

all_options-IsLocal :
    (config : OptionsConfig) (listen windows : Bool)
    → (listen ≡ true → validate_listen_address config.listen_address ≡ ok tt)
    → All IsLocal (all_options config listen windows)
all_options-IsLocal config listen windows h =
    All-append IsLocal (head_options config) _
      (Silent-IsLocal (head_options config) (head_options-Silent config))
      (All-append IsLocal (info_options config listen windows) _
        (info_options-IsLocal config listen windows h)
        (All-append IsLocal (key_options listen) _
          (Silent-IsLocal (key_options listen) (key_options-Silent listen))
          (All-append IsLocal (start_options listen windows) _
            (Silent-IsLocal (start_options listen windows) (start_options-Silent listen windows))
            (All-append IsLocal ignored_keys (last_options config.picker)
              (Silent-IsLocal ignored_keys ignored_keys-Silent)
              (Silent-IsLocal (last_options config.picker) (last_options-Silent config.picker))))))

checked-IsLocal :
    (no_address : Bool) (config : OptionsConfig) (windows : Bool) {arguments : List Bytes}
    → (if no_address
        then ok (all_options config false windows)
        else validate_listen_address config.listen_address >> ok (all_options config true windows))
      ≡ ok arguments
    → All IsLocal arguments
checked-IsLocal true config windows h =
    subst (All IsLocal) (ok_eq h) (all_options-IsLocal config false windows (λ e. cc))
checked-IsLocal false config windows h =
    let (valid, accepted, rest) = >>=-eq-ok (validate_listen_address config.listen_address) _ h in
    subst (All IsLocal) (ok_eq rest) (all_options-IsLocal config true windows (λ e. accepted))

options_by-IsLocal :
    (picker : Picker) (config : OptionsConfig) (windows : Bool) {arguments : List Bytes}
    → options_by picker config windows ≡ ok arguments
    → All IsLocal arguments
options_by-IsLocal cd config windows h =
    checked-IsLocal (is_empty config.listen_address) config windows h
options_by-IsLocal cp config windows h =
    checked-IsLocal (is_empty config.listen_address) config windows h
options_by-IsLocal other_picker config windows h = subst (All IsLocal) (ok_eq h) tt

-- Whatever address the sidecar asks for, fzf is told to listen on the local address alone: an
-- argument that starts with `--listen` is `--listen=127.0.0.1:` and a port from 1 to 65535 in its
-- decimal text.
pub options_for_platform-IsLocal :
    (config : OptionsConfig) (windows : Bool) {arguments : List Bytes}
    → options_for_platform config windows ≡ ok arguments
    → All IsLocal arguments
unfolding options_for_platform
options_for_platform-IsLocal config windows h = options_by-IsLocal config.picker config windows h
