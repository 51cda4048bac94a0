-- ===== src/Storage.antt =====
-- internal/storage: the SQLite tables as lists of rows, and the S3 bucket behind an interface.
pub mod Tables
pub mod Object
pub mod Block
pub mod Node
pub mod ManifestStore
pub mod Prune
pub mod Spec
pub mod S3Client
pub mod Open
