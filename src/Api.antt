-- ===== src/Api.antt =====
-- internal/api: the HTTP handlers over the services.
pub mod Respond
pub mod Cursor
pub mod Query
pub mod Notifications
pub mod Batch
pub mod Crawl
pub mod Lifecycle
pub mod Hub
pub mod Templates
pub mod Dashboard
pub mod Summary
pub mod Middleware
