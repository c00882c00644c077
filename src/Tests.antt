-- ===== src/Tests.antt =====
-- The theorems at concrete inputs, and runs of the definitions.
mod Actor
mod Session
mod Wire
mod Fzf
mod App
mod Files
mod Sidecar
mod Process
mod Callback
