-- ===== src/Pathutil.antt =====
-- internal/pathutil: locations, their display and the creation of directories, on Unix.
pub mod Filepath
pub mod Location
pub mod Tree
