-- ===== src/Service.antt =====
-- internal/service: the use cases between the transport layers and the repository.
pub mod Resolve
pub mod Create
pub mod Cancel
pub mod Batch
pub mod Safe
pub mod Replay
pub mod Fresh
pub mod Cancelled
pub mod Listing
pub mod Templates
