-- ===== src/Session.antt =====
-- internal/session: the picker's state, the reduction of key events to proposed transitions, the
-- actor that commits them, and the validation of what fzf accepted.
pub mod State
pub mod Records
pub mod Proposal
pub mod Resolve
pub mod Reduce
pub mod Handle
pub mod Actor
pub mod Selection
