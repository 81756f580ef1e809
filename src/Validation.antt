-- ===== src/Validation.antt =====
-- server/src/agent_shell/validation: the checks on an assembled agent.
pub mod Subagents
mod Samples
