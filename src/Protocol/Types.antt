-- ===== src/Protocol/Types.antt =====
-- internal/protocol/types.go. A Go string type with named constants is a data type; a constructor
-- `other…` stands for every other text, and `no_…` for the empty text where the code tests it.
use shell_picker.Base.{ℕ, Bool, true, false, Bytes, List, bytes_eq, codes, if◌then◌else◌}

pub data Picker : Type 0 where
  cd cp other_picker : Picker

pub data Mode : Type 0 where
  no_mode insert normal add other_mode : Mode

pub data Kind : Type 0 where
  local directory file zoxide drive virtual : Kind
  other_kind : Bytes → Kind

pub data CursorShape : Type 0 where
  no_cursor line block : CursorShape

pub data Opcode : Type 0 where
  mode_insert mode_add escape forward parent slash home enter restore_view : Opcode
  other_opcode : Opcode

-- `Effect.Search`: "", "on", "off".
pub data Search : Type 0 where
  no_search on off other_search : Search

abbrev pub virtual_drives_target : Bytes
virtual_drives_target = codes "drives"

-- The text of a kind, and the kind of a text.
unfoldable pub kind_text : Kind → Bytes
kind_text local = codes "local"
kind_text directory = codes "directory"
kind_text file = codes "file"
kind_text zoxide = codes "zoxide"
kind_text drive = codes "drive"
kind_text virtual = codes "virtual"
kind_text (other_kind t) = t

unfoldable pub kind_of : Bytes → Kind
unfolding bytes_eq
kind_of t =
    if bytes_eq t (codes "local")
    then local
    else if bytes_eq t (codes "directory")
    then directory
    else if bytes_eq t (codes "file")
    then file
    else if bytes_eq t (codes "zoxide")
    then zoxide
    else if bytes_eq t (codes "drive")
    then drive
    else if bytes_eq t (codes "virtual")
    then virtual
    else other_kind t

unfoldable pub valid_kind : Kind → Bool
valid_kind (other_kind t) = false
valid_kind _ = true

pub record Event : Type 0 where
  pub opcode : Opcode
  pub key : Bytes
  pub query : Bytes
  pub current_item : Bytes

pub record Effect : Type 0 where
  pub mode : Mode
  pub prompt : Bytes
  pub header : Bytes
  pub search : Search
  pub rebind : Mode
  pub clear_query : Bool
  pub clear_multi : Bool
  pub accept : Bool
  pub abort : Bool
  pub ignore : Bool
  pub put : Bytes
  pub invalid_path : Bool
  pub reload_generation : ℕ
  pub restore_generation : ℕ
  pub cursor : CursorShape
  pub error_prompt : Bool

-- The zero value of `Effect`.
abbrev pub no_effect : Effect
no_effect = record {
  mode = no_mode;
  prompt = List.[];
  header = List.[];
  search = no_search;
  rebind = no_mode;
  clear_query = false;
  clear_multi = false;
  accept = false;
  abort = false;
  ignore = false;
  put = List.[];
  invalid_path = false;
  reload_generation = 0;
  restore_generation = 0;
  cursor = no_cursor;
  error_prompt = false;
}

pub data Status : Type 0 where
  accepted aborted other_status : Status

pub record Outcome : Type 0 where
  pub status : Status
  pub paths : List Bytes
