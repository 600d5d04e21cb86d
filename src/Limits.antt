-- ===== src/Limits.antt =====
-- The limits of use that the gateway keeps: the daily quota (packages/vscommon/quota.py), the rate of
-- requests (packages/vscommon/ratelimit.py) and the addresses of callbacks
-- (packages/vscommon/callbacks.py).
pub mod Counters
pub mod Quota
pub mod Rate
pub mod Addresses
mod Tests
