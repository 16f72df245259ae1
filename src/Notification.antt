-- ===== src/Notification.antt =====
-- internal/notification: the Notification context.
pub mod Budget
pub mod Policy
pub mod Channels
pub mod Preferences
pub mod Notifier
pub mod Deliveries
pub mod Delivering
