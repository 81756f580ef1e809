-- ===== src/Workflow/Catalog.antt =====
-- server/src/agent_shell/workflow/catalog.py: the node types of the canvas and their handles.
-- Titles and descriptions, which are shown only, are left out.
use deepagent_shell.Prelude.{
  ℕ, String, ◌≡◌, ◌↔◌, Bool, true, false, List, [], ◌∷◌, Option, none, arith, Eq, ◌==◌, nat_eq,
  string_eq, pair_eq, contains, Dict, lookup, map,
}

pub data EdgeType : Type 0 where
  normal branch dispatch : EdgeType

abbrev pub edge_type_beq : EdgeType → EdgeType → Bool
edge_type_beq normal normal = true
edge_type_beq branch branch = true
edge_type_beq dispatch dispatch = true
edge_type_beq _ _ = false

pub edge_type_beq_iff : (a b : EdgeType) → (edge_type_beq a b ≡ true) ↔ (a ≡ b)
edge_type_beq_iff a b = (λ h. ground arith, λ h. ground arith)

instance abbrev pub edge_type_eq : Eq EdgeType
edge_type_eq = record { beq = edge_type_beq; beq_iff = edge_type_beq_iff }

pub data RuntimeKind : Type 0 where
  graph_entry graph_exit agent_wrapper command_node send_dispatcher : RuntimeKind

pub data ConfigModel : Type 0 where
  empty_node agent_node command_config task_dispatcher_node : ConfigModel

pub data WorkflowRole : Type 0 where
  parent child : WorkflowRole

abbrev pub role_beq : WorkflowRole → WorkflowRole → Bool
role_beq parent parent = true
role_beq child child = true
role_beq _ _ = false

pub role_beq_iff : (a b : WorkflowRole) → (role_beq a b ≡ true) ↔ (a ≡ b)
role_beq_iff a b = (λ h. ground arith, λ h. ground arith)

instance abbrev pub role_eq : Eq WorkflowRole
role_eq = record { beq = role_beq; beq_iff = role_beq_iff }

pub record NodeHandleSpec : Type 0 where
  pub id : String
  pub edge_type : EdgeType
  pub accepted_edge_types : List EdgeType
  pub max_connections : Option ℕ

pub record NodeTypeSpec : Type 0 where
  pub type : String
  pub type_version : ℕ
  pub runtime_kind : RuntimeKind
  pub config_model : ConfigModel
  pub input_handles : List NodeHandleSpec
  pub output_handles : List NodeHandleSpec
  pub workflow_roles : List WorkflowRole

abbrev handle : String → EdgeType → List EdgeType → List NodeHandleSpec
handle id edge_type accepted =
    record {
      id = id;
      edge_type = edge_type;
      accepted_edge_types = accepted;
      max_connections = none;
    }
    ∷ []

abbrev pub plain_in : List NodeHandleSpec
plain_in = handle "in" normal (normal ∷ branch ∷ [])

abbrev pub agent_in : List NodeHandleSpec
agent_in = handle "in" normal (normal ∷ branch ∷ dispatch ∷ [])

abbrev pub next_out : List NodeHandleSpec
next_out = handle "next" normal []

abbrev pub branch_out : List NodeHandleSpec
branch_out = handle "branch" branch []

abbrev pub dispatch_out : List NodeHandleSpec
dispatch_out = handle "dispatch" dispatch []

abbrev node_spec :
    String → RuntimeKind → ConfigModel → List NodeHandleSpec → List NodeHandleSpec → NodeTypeSpec
node_spec type kind model inputs outputs = record {
  type = type;
  type_version = 1;
  runtime_kind = kind;
  config_model = model;
  input_handles = inputs;
  output_handles = outputs;
  workflow_roles = parent ∷ child ∷ [];
}

abbrev pub node_catalog : List NodeTypeSpec
node_catalog =
    node_spec "start" graph_entry empty_node [] next_out
    ∷ node_spec "agent" agent_wrapper agent_node agent_in next_out
    ∷ node_spec "command" command_node command_config plain_in branch_out
    ∷ node_spec "task-dispatcher" send_dispatcher task_dispatcher_node plain_in dispatch_out
    ∷ node_spec "end" graph_exit empty_node plain_in []
    ∷ []

-- `_NODE_TYPES`; the catalog names each pair of a type and a version once.
abbrev pub node_types : Dict (String × ℕ) NodeTypeSpec
node_types = map (λ item. ((item.type, item.type_version), item)) node_catalog

unfoldable pub node_type_spec : String → ℕ → Option NodeTypeSpec
unfolding lookup
node_type_spec type version = lookup (type, version) node_types

-- `supported_node_versions(t) is not None`
unfoldable pub is_supported_type : String → Bool
is_supported_type type = contains type (map (λ item. item.type) node_catalog)

-- `source_type in (handle.accepted_edge_types or (handle.edge_type,))`
unfoldable pub accepts : NodeHandleSpec → EdgeType → Bool
accepts h t = elim h.accepted_edge_types [
  | [] ↦ t == h.edge_type
  | a ∷ rest ↦ contains t (a ∷ rest)
]
