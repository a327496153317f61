-- ===== src/Domain.antt =====
-- internal/domain: the notification model, its state machine and its validation.
pub mod Status
pub mod Errors
pub mod Notification
pub mod Regexp
pub mod Validate
pub mod List
pub mod Template
