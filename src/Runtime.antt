-- ===== src/Runtime.antt =====
-- server/src/agent_shell/runtime: the output of a run, and background tasks.
pub mod EventPool
pub mod BackgroundTasks
pub mod State
pub mod Samples
pub mod TaskSamples
