-- ===== src/Worker.antt =====
-- The worker's loop over its jobs (services/worker/worker_app/main.py).
pub mod Failures
pub mod Redis
pub mod Deep
pub mod Notify
pub mod Deliver
pub mod Handle
pub mod Reclaim
pub mod Logic
pub mod Emits
pub mod Works
mod Tests
