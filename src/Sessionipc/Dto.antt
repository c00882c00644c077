-- ===== src/Sessionipc/Dto.antt =====
-- internal/sessionipc/dto.go: the requests that the coordinator answers.
use shell_picker.Base.{ℕ, Bool, Bytes, Option}
use shell_picker.Protocol.Types.{Effect, Opcode}

-- An opcode that is not set is `none`.
pub record EventRequest : Type 0 where
  pub opcode : Option Opcode
  pub key : Bytes
  pub query_base64 : Bytes
  pub current_item_base64 : Bytes

pub record EventResponse : Type 0 where
  pub effect : Effect
  pub event_id : ℕ

pub record EventFinalizeRequest : Type 0 where
  pub event_id : ℕ
  pub applied : Bool

pub record LoadFinalizeRequest : Type 0 where
  pub event_id : ℕ
  pub applied : Bool

pub record EventResult : Type 0 where
  pub effect : Effect
  pub event_id : ℕ

pub record LoadRequest : Type 0 where
  pub generation : ℕ
  pub event_id : ℕ
