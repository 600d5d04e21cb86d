-- ===== src/Risk.antt =====
-- The Risk Engine: findings, their weights and families, the score and the verdict
-- (packages/vscommon/scoring.py, packages/vscommon/weights.py, and the data of
-- packages/vscommon/models.py that they read).
pub mod Model
pub mod Weights
pub mod Families
pub mod Score
pub mod Verdicts
mod Tests
