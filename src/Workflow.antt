-- ===== src/Workflow.antt =====
-- server/src/agent_shell/workflow: the canvas graph, its checks and its compilation.
pub mod Contracts
pub mod Catalog
pub mod Issues
pub mod Topology
pub mod Admission
pub mod Executable
pub mod Compiler
pub mod Scripts
pub mod Nodes
pub mod Samples
pub mod ScriptSamples
pub mod NodeSamples
