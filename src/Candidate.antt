-- ===== src/Candidate.antt =====
-- internal/candidate: the records that fzf lists.
pub mod Entry
pub mod Merge
pub mod Limits
