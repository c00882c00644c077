-- ===== src/Fzfsidecar.antt =====
-- internal/fzfsidecar: the client that reads fzf's counts over HTTP and shows them as its label.
pub mod State
pub mod Pages
