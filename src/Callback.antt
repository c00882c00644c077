-- ===== src/Callback.antt =====
-- internal/callback: the commands that fzf runs, sent back to the picker.
pub mod Grammar
pub mod Finder
pub mod Dispatch
pub mod Telemetry
