-- ===== src/Preview.antt =====
-- internal/preview: the limits of a preview.
pub mod Limit
