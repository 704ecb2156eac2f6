-- ===== src/Notifications.antt =====
-- The delivery of notifications (apps/worker/src/notification.processor.ts).
pub mod Delivery
pub mod Once
pub mod Attempts
