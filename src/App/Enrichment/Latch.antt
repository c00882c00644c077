-- ===== src/App/Enrichment/Latch.antt =====
-- What no step of internal/app/enrichment*.go takes back.
use shell_picker.Base.{◌≡◌, true, false, is_some}
use shell_picker.Protocol.Types.{Event}
use shell_picker.App.Failure.{Failure}
use shell_picker.App.Enrichment.State.{Enrichment}
use shell_picker.App.Enrichment.Commit.{is_empty}

-- From `e` to `f`: a terminal coordinator stays so and reserves no event, an inactive one stays so,
-- an activation and a decision of the trace stay as they are, and so does the error that Wait has
-- returned for an inactive coordinator.
pub record Latched (e f : Enrichment) : Type 0 where
  pub ended : e.terminal ≡ true → (f.terminal ≡ true) × (f.next_event_id ≡ e.next_event_id)
  pub deactivated : e.active ≡ false → f.active ≡ false
  pub once_activated :
      e.activated ≡ true → (f.activated ≡ true) × (f.initial_generation ≡ e.initial_generation)
  pub decided : is_empty e.trace_outcome ≡ false → f.trace_outcome ≡ e.trace_outcome
  pub finalized : e.terminal_finalized ≡ true → f.terminal_finalized ≡ true
  pub settled : e.terminal_finalized ≡ true → e.active ≡ false → f.terminal_err ≡ e.terminal_err
  pub failed : is_some e.terminal_err ≡ true → is_some f.terminal_err ≡ true
