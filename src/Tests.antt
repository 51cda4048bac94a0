-- ===== src/Tests.antt =====
-- The theorems at concrete inputs.
mod Fixtures
mod Storing
mod Serving
mod Chunking
mod Sharing
mod Asking
mod Refining
mod Reaching
mod Restoring
mod Running
mod Wholeness
mod Commanding
