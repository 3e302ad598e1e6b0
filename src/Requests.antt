-- ===== src/Requests.antt =====
-- apps/api/src/requests: which requests a seller sees, in which order and page, and how the buyer
-- moves a request through its life.
pub mod Visibility
pub mod Paging
pub mod Lifecycle
pub mod Publish
pub mod Edit
