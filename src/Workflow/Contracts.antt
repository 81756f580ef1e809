-- ===== src/Workflow/Contracts.antt =====
-- The workflow document of server/src/agent_shell/workflow/contracts.py. `C` is the type of a
-- node's `config`, JSON that only the catalog's config models read. Of the layout the node ids are
-- kept, and the positions and the viewport, which no check reads, are left out.
use deepagent_shell.Prelude.{ℕ, String, List, Option}

pub record WorkflowNode (C : Type 0) : Type 0 where
  pub id : String
  pub type : String
  pub type_version : ℕ
  pub config : C

pub record WorkflowEdge : Type 0 where
  pub id : String
  pub source : String
  pub source_handle : String
  pub target : String
  pub target_handle : String
  pub branch_key : Option String
  pub dispatch_key : Option String

pub record WorkflowGraphDefinition (C : Type 0) : Type 0 where
  pub nodes : List (WorkflowNode C)
  pub edges : List WorkflowEdge

pub record WorkflowGraphDocument (C : Type 0) : Type 0 where
  pub definition : WorkflowGraphDefinition C
  pub layout_nodes : List String
