-- ===== src/Scan.antt =====
-- The scan of one file in the worker (services/worker/worker_app): the context that the stages fill,
-- the pipeline that runs them, the members of an archive, and the result.
pub mod Model
pub mod Context
pub mod Stages
pub mod Members
pub mod Process
mod Tests
