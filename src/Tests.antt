-- ===== src/Tests.antt =====
-- Concrete runs, and each theorem with a hypothesis or a binder at one input.
mod Hosts
mod Portable
mod Runner
mod MacosRuns
mod LinuxRuns
mod WindowsRuns
mod WindowsKernel
mod HelperScript
