-- ===== src/Notifier.antt =====
-- packages/notifier/notifier: messages to the user over several channels.
pub mod RateLimit
pub mod Router
pub mod Redelivery
