-- ===== src/App.antt =====
-- internal/app: the coordinator of the initial zoxide source and the errors it keeps.
pub mod Failure
pub mod Enrichment
