-- ===== src/Fzf.antt =====
-- internal/fzf: the actions that are sent to fzf, its options, its output and its input stream.
pub mod Action
pub mod Render
pub mod Options
pub mod Output
pub mod Input
