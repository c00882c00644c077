-- ===== src/Callback/Grammar.antt =====
-- internal/callback/grammar.go and validation.go: the commands that fzf runs.
pub mod RoundTrip
use shell_picker.Base.{
  ℕ, ◌^◌, Bool, true, false, not, ◌&&◌, ◌||◌, ◌==◌, ltb, if◌then◌else◌, Option, none, some, List,
  [], ◌∷◌, Bytes, codes, bytes_eq, any, all, cut, count, Result, ok, err, ◌>>=◌,
}
use shell_picker.Base.Decimal.{is_digit, number, first_of}
use shell_picker.Protocol.Types.{
  Opcode, mode_insert, mode_add, escape, forward, parent, slash, home, enter, restore_view,
  other_opcode, Picker, cd, cp,
}

-- `Kind`; `no_kind` is its zero value.
pub data CommandKind : Type 0 where
  no_kind event load preview display info empty_source invalid_preview : CommandKind

-- `Command`; an opcode or picker that is not set is `none`.
pub record Command : Type 0 where
  pub kind : CommandKind
  pub opcode : Option Opcode
  pub generation : ℕ
  pub event_id : ℕ
  pub picker : Option Picker

pub data GrammarError : Type 0 where
  grammar wrong_key no_environment : GrammarError

abbrev pub event_command : Opcode → Command
event_command opcode = record {
  kind = event;
  opcode = some opcode;
  generation = 0;
  event_id = 0;
  picker = none;
}

abbrev pub load_of : ℕ → ℕ → Command
load_of generation event_id = record {
  kind = load;
  opcode = none;
  generation = generation;
  event_id = event_id;
  picker = none;
}

abbrev pub plain_command : CommandKind → Option Picker → Command
plain_command kind picker = record {
  kind = kind;
  opcode = none;
  generation = 0;
  event_id = 0;
  picker = picker;
}

-- `Command.Local`.
unfoldable pub is_local : Command → Bool
is_local command = elim command.kind [
  | info ↦ true
  | empty_source ↦ true
  | invalid_preview ↦ true
  | _ ↦ false
]

-- The commands that are one fixed text.
unfoldable pub fixed_commands : List (Bytes × Command)
fixed_commands =
    (codes "e:mi", event_command mode_insert)
    ∷ (codes "e:ma", event_command mode_add)
    ∷ (codes "e:es", event_command escape)
    ∷ (codes "e:fw", event_command forward)
    ∷ (codes "e:up", event_command parent)
    ∷ (codes "e:sl", event_command slash)
    ∷ (codes "e:hm", event_command home)
    ∷ (codes "e:en", event_command enter)
    ∷ (codes "e:rs", event_command restore_view)
    ∷ (codes "p", plain_command preview none)
    ∷ (codes "d", plain_command display none)
    ∷ (codes "i:cd", plain_command info (some cd))
    ∷ (codes "i:cp", plain_command info (some cp))
    ∷ (codes "l:empty", plain_command empty_source none)
    ∷ (codes "p:invalid", plain_command invalid_preview none)
    ∷ []

unfoldable pub find_command : Bytes → List (Bytes × Command) → Option Command
find_command raw [] = none
find_command raw ((text, command) ∷ rest) =
    if bytes_eq text raw then some command else find_command raw rest

-- A canonical number from 1 to 2^64 - 1: what stands between two colons.
unfoldable pub parse_id : Bytes → Result GrammarError ℕ
unfolding number
parse_id s =
    if first_of s == b'0' || not (all is_digit s) || bytes_eq s []
    then err grammar
    else if number s == 0 || not (ltb (number s) (2 ^ 64))
    then err grammar
    else ok (number s)

abbrev second_id : Bytes → Result GrammarError ℕ
second_id second = if count b':' second == 0 then parse_id second else err grammar

-- The parts of `strings.Split(digits, ":")`: one, two, or too many.
unfoldable pub parse_parts : Bytes → Option (Bytes × Bytes) → Result GrammarError Command
parse_parts digits none = do generation ← parse_id digits; ok (load_of generation 0)
parse_parts digits (some (first, second)) = do
  generation ← parse_id first
  event_id ← second_id second
  ok (load_of generation event_id)

-- After the fixed texts: `l:` and the numbers.
unfoldable pub parse_load : Bytes → Result GrammarError Command
parse_load (l ∷ colon ∷ digits) =
    if l == b'l' && colon == b':' then parse_parts digits (cut b':' digits) else err grammar
parse_load _ = err grammar

abbrev or_load : Option Command → Bytes → Result GrammarError Command
or_load none raw = parse_load raw
or_load (some command) raw = ok command

-- `Parse`.
unfoldable pub parse : Bytes → Result GrammarError Command
parse raw = or_load (find_command raw fixed_commands) raw

-- The keys of an opcode.
unfoldable pub allowed_keys : Opcode → List Bytes
allowed_keys mode_insert = codes "i" ∷ []
allowed_keys mode_add = codes "a" ∷ []
allowed_keys escape = codes "esc" ∷ []
allowed_keys forward = codes "ctrl-l" ∷ codes "tab" ∷ codes "right" ∷ codes "l" ∷ []
allowed_keys parent = codes "ctrl-h" ∷ codes "left" ∷ codes "h" ∷ []
allowed_keys slash = codes "/" ∷ []
allowed_keys home = codes "~" ∷ []
allowed_keys enter = codes "enter" ∷ []
allowed_keys restore_view = []
allowed_keys other_opcode = []

-- `validKey`.
unfoldable pub valid_key : Opcode → Bytes → Bool
valid_key opcode key = any (λ k. bytes_eq k key) (allowed_keys opcode)

abbrev check_key : Opcode → Bytes → Result GrammarError (Unit {0})
check_key restore_view key = ok tt
check_key opcode key = if valid_key opcode key then ok tt else err wrong_key

abbrev check_event : Option Opcode → Bytes → Result GrammarError (Unit {0})
check_event none key = err wrong_key
check_event (some opcode) key = check_key opcode key

-- `ValidateLocal`, with the environment as a function.
unfoldable pub validate_local : Command → Option (Bytes → Bytes) → Result GrammarError (Unit {0})
unfolding valid_key allowed_keys
validate_local command none = err no_environment
validate_local command (some lookup_env) = elim command.kind [
  | event ↦ check_event command.opcode (lookup_env (codes "FZF_KEY"))
  | no_kind ↦ err grammar
  | _ ↦ ok tt
]
