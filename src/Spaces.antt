-- ===== src/Spaces.antt =====
-- Spaces (src/spaces): the apps and pages that the assistant builds.
pub mod Page
pub mod Json
pub mod Checks
pub mod Spec
pub mod Convert
pub mod Records
pub mod Seeds
pub mod Rows
pub mod Sessions
pub mod Guard
pub mod Slug
pub mod Accepted
pub mod Apps
