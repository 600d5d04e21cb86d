-- ===== src/Notifier.antt =====
-- The notifier (services/notifier/notifierapp): it delivers results and rebuilt copies to the clients.
pub mod Model
pub mod Callbacks
pub mod Copies
mod Tests
