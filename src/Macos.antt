-- ===== src/Macos.antt =====
-- platform/macos.rs: the sandbox profile of a policy and its execution by `sandbox-exec`.
pub mod Profile
pub mod Quoting
pub mod Rules
mod Dedupe
pub mod Verdict
pub mod Sandbox
pub mod Execution
