-- ===== src/Storage.antt =====
-- What internal/storage keeps on disk: the session log (history.go).
pub mod History
