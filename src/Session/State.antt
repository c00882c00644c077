-- ===== src/Session/State.antt =====
-- internal/session/types.go: the state, its snapshots and the proposed transitions. Values are
-- immutable here, so the clone functions are the identity.
use shell_picker.Base.{ℕ, Bool, false, Option, List, [], Bytes}
use shell_picker.Protocol.Types.{Picker, other_picker, Mode, no_mode, Effect}
use shell_picker.Pathutil.Location.{Location, no_location}
pub use shell_picker.Pathutil.Tree.{CreatedTree}
use shell_picker.Candidate.Entry.{Record, BuildRequest}

pub record State : Type 0 where
  pub picker : Picker
  pub mode : Mode
  pub location : Location
  pub home : Location
  pub prompt : Bytes
  pub add_error : Bool

abbrev pub nowhere : Location
nowhere = record { kind = no_location; path = [] }

-- The zero value of `State`.
abbrev pub no_state : State
no_state = record {
  picker = other_picker;
  mode = no_mode;
  location = nowhere;
  home = nowhere;
  prompt = [];
  add_error = false;
}

-- record_set.go: the records with the position of each full record.
pub record RecordSet : Type 0 where
  pub values : List Record
  pub by_full_record : List (Bytes × ℕ)

pub record Snapshot : Type 0 where
  pub generation : ℕ
  pub state : State
  pub records : Option RecordSet

pub record ProposedTransition : Type 0 where
  pub base_generation : ℕ
  pub state : State
  pub build : Option BuildRequest
  pub effect : Effect
  pub created : Option CreatedTree

pub record AddIntent : Type 0 where
  pub base_generation : ℕ
  pub base : Location
  pub query : Bytes

-- A reduction holds a proposal or the intent to create directories, never both.
pub data Reduction : Type 0 where
  proposes : ProposedTransition → Reduction
  adds : AddIntent → Reduction

pub data Error : Type 0 where
  closed superseded stale_generation transition_pending unknown_record : Error
  nil_context nil_generator generation_limit : Error
  invalid_event invalid_navigation invalid_selection unknown_selection invalid_base : Error
  -- An error of the caller's context, of the generator or of the file system.
  external : ℕ → Error
