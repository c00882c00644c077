-- ===== src/App/Enrichment.antt =====
-- internal/app/enrichment*.go: the coordinator that serializes the events of a session with the
-- publication of the zoxide records. Each section that holds the gate is one step on its fields; a
-- wait on `stateChanged` is a step that changes nothing and is tried again. Cancellations and what
-- is done to fzf's input are the outputs of a step, in order.
pub mod State
pub mod Event
pub mod Load
pub mod Lifecycle
pub mod Commit
pub mod Trace
pub mod Run
pub mod Keeps
pub mod Serial
pub mod Issued
pub mod Loads
pub mod Latch
pub mod Phase
