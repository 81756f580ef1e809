-- ===== src/Workflow/Topology.antt =====
-- server/src/agent_shell/workflow/topology.py: `validate_workflow_topology`.
pub mod Table
pub mod Scan
pub mod Reach
pub mod Validate
