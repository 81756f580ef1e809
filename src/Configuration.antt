-- ===== src/Configuration.antt =====
-- server/src/agent_shell/configuration: the repositories of agents, workflows and their components.
pub mod Imports
