-- ===== src/Windows.antt =====
-- platform/windows/: the parts of the Windows backend that are plain functions of their arguments.
pub mod Arguments
pub mod Environment
pub mod Elevated
pub mod Scan
pub mod Plan
pub mod Kernel
pub mod Acl
pub mod Process
pub mod Elevation
pub mod Filters
pub mod Profile
