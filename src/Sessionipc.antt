-- ===== src/Sessionipc.antt =====
-- internal/sessionipc: the requests of the callbacks and the checks on them.
pub mod Dto
pub mod Preview
