-- ===== src/Linux.antt =====
-- platform/linux.rs: the Linux backend.
pub mod Scope
pub mod Kernel
pub mod Fds
pub mod Namespace
pub mod Overlay
pub mod Mounts
mod Monotone
pub mod Landlock
pub mod Seccomp
pub mod Execution
