-- ===== src/Archive.antt =====
-- ZIP archives: names, the unpacking budget of the whole tree, the inventory and the extraction
-- (services/worker/worker_app/archive.py).
pub mod Model
pub mod Names
pub mod Inspect
pub mod Extract
mod Tests
