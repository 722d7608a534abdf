-- ===== src/ToolAdapters.antt =====
-- kernel/tool-adapters: the queue of tool runs, and the policies on which adapter may run.
pub mod Types
pub mod Scrub
pub mod TaskQueue
pub mod Policies
pub mod TeamPolicy
mod Tests
