-- ===== src/Notification.antt =====
-- src/notification: the channel on which the debug monitor reports what happens.
pub mod Parse
pub mod Transport
mod Tests
