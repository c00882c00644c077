-- ===== src/Session/Actor/State.antt =====
-- The actor's variables, its messages and its outputs (internal/session/actor.go and types.go).
use shell_picker.Base.{ℕ, ◌-◌, ◌^◌, Bool, false, Option, none, some, List, [], Bytes, Result}
use shell_picker.Protocol.Types.{Effect}
use shell_picker.Candidate.Entry.{Record, BuildRequest, BuildResult, SourceMetrics}
use shell_picker.Session.State.{State, no_state, Snapshot, CreatedTree, ProposedTransition, Error}
use shell_picker.Session.Records.{own_record_set}

-- `applyCommand`: the caller's context and its reply channel are named by numbers.
pub record ApplyCommand : Type 0 where
  pub ctx : ℕ
  pub proposal : ProposedTransition
  pub reply : ℕ

pub record EnrichCommand : Type 0 where
  pub ctx : ℕ
  pub base_generation : ℕ
  pub records : List Record
  pub sources : SourceMetrics
  pub reply : ℕ

-- `pendingTransition`.
pub record Pending : Type 0 where
  pub id : ℕ
  pub command : ApplyCommand
  pub retiring : Bool
  pub reply_err : Option Error

-- The local variables of `run` and the fields that it sets.
pub record Actor : Type 0 where
  pub current : Snapshot
  pub pending : Option Pending
  pub replacement : Option ApplyCommand
  pub close_reply : Option ℕ
  pub shutdown_err : Option Error
  pub session_armed : Bool
  pub next_id : ℕ
  pub final_err : Option Error
  pub finished : Bool

-- What context.Cause returns for a caller's context and for the session's, and what the clean-up of
-- a tree returns.
pub record World : Type 0 where
  pub caller_cause : ℕ → Option Error
  pub session_cause : Option Error
  pub cleanup : Option CreatedTree → Option Error

pub data Input : Type 0 where
  apply : ApplyCommand → Input
  enrich : EnrichCommand → Input
  current_of current_state_of : ℕ → ℕ → Input
  snapshot_of : ℕ → ℕ → ℕ → Input
  resolve_of : ℕ → Bytes → ℕ → Input
  completion : ℕ → BuildResult → Option Error → Input
  close : ℕ → Input
  caller_done : Input
  session_done : Input

-- A result of a transition, without its durations.
pub record TransitionResult : Type 0 where
  pub snapshot : Snapshot
  pub effect : Effect
  pub sources : SourceMetrics

-- Errors are joined by errors.Join: the first, then the error of the clean-up if there is one.
pub data Output : Type 0 where
  apply_result : ℕ → TransitionResult → Output
  apply_error : ℕ → Error → Option Error → Output
  cleaned : Option CreatedTree → Output
  enrich_result : ℕ → TransitionResult → Output
  enrich_error : ℕ → Error → Output
  snapshot_reply : ℕ → Result Error Snapshot → Output
  state_reply : ℕ → Result Error State → Output
  record_reply : ℕ → Result Error Record → Output
  close_done : ℕ → Output
  build_started : ℕ → BuildRequest → Output
  build_cancelled : ℕ → Option Error → Output

-- `math.MaxUint64`.
abbrev pub max_uint64 : ℕ
max_uint64 = 2 ^ 64 - 1

-- The state in which `run` enters its loop.
unfoldable pub new_actor : Actor
unfolding own_record_set
new_actor = record {
  current = record { generation = 0; state = no_state; records = some (own_record_set []) };
  pending = none;
  replacement = none;
  close_reply = none;
  shutdown_err = none;
  session_armed = Bool.true;
  next_id = 0;
  final_err = none;
  finished = false;
}
