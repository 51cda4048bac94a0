-- ===== src/Backup.antt =====
-- The package internal/backup: one module for each of its files.
pub mod Codec
pub mod Manifest
pub mod Chunker
pub mod Restore
pub mod Scanner
pub mod Ignore
pub mod Creator
