-- ===== src/Process.antt =====
-- internal/process: the environment of the processes that are started.
pub mod Env
