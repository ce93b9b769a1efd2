-- ===== src/Notifications.antt =====
-- application/notifications.py: the router of notifications.
pub mod Answered
pub mod Events
pub mod Router
pub mod Delivery
pub mod Queue
pub mod Untouched
pub mod Bounded
pub mod Dedup
pub mod Closing
mod Tests
