-- ===== src/Tests.antt =====
-- Concrete systems and runs: an implementation in memory of what the code takes as parameters, with
-- the laws that it meets, and the theorems at concrete inputs.
pub mod Memory
pub mod Systems
mod Claims
mod Inodes
mod Handlers
mod Directories
mod Pages
mod Files
mod Histories
mod Programs
mod Samples
mod Streams
mod Session
