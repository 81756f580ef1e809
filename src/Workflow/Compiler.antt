-- ===== src/Workflow/Compiler.antt =====
-- `compile_workflow` of server/src/agent_shell/workflow/compiler.py: the calls that it makes on
-- LangGraph's `StateGraph` builder. The builder's `compile` and the node functions are not part of the
-- model; what a node function is made from is.
pub mod Total
pub mod Uncrashed
pub mod Checked
use deepagent_shell.Prelude.{
  String, Bool, true, false, not, List, [], ◌∷◌, ◌++◌, map, Option, none, some, Dict, lookup,
  insert, contains, add, keep, if◌then◌else◌, Eq, string_eq, ◌==◌, ◌↔◌, ◌≡◌, arith,
}
use text.Mathlib.TextEquality.{eq_iff}
use text.Mathlib.Text.{◌==◌ as str_eq}
use deepagent_shell.Workflow.Contracts.{WorkflowNode, WorkflowEdge, WorkflowGraphDocument}
use deepagent_shell.Workflow.Catalog.{
  ConfigModel, WorkflowRole, RuntimeKind, graph_entry, graph_exit, command_node, send_dispatcher,
  EdgeType, normal, branch, dispatch, edge_type_eq, node_type_spec,
}
use deepagent_shell.Workflow.Issues
use deepagent_shell.Workflow.Issues.{Issue, IssueCode}
use deepagent_shell.Workflow.Admission.{ConfigResult, admit_workflow_document}
use deepagent_shell.Workflow.Topology.Table.{NodeTable, place_nodes, find_handle}
use deepagent_shell.Workflow.Topology.Validate.{validate_workflow_topology}

-- A vertex of the state graph. LangGraph's START and END are strings that no node id can be, since a
-- node id begins with a letter.
pub data Vertex : Type 0 where
  start finish : Vertex
  node : String → Vertex

abbrev pub vertex_beq : Vertex → Vertex → Bool
vertex_beq start start = true
vertex_beq finish finish = true
vertex_beq (node a) (node b) = str_eq a b
vertex_beq _ _ = false

pub vertex_beq_iff : (a b : Vertex) → (vertex_beq a b ≡ true) ↔ (a ≡ b)
vertex_beq_iff (node a) (node b) =
    (λ h. ground (arith, eq_iff a b), λ h. ground (arith, eq_iff a b))
vertex_beq_iff start b = (λ h. ground arith, λ h. ground arith)
vertex_beq_iff a b = (λ h. ground arith, λ h. ground arith)

instance abbrev pub vertex_eq : Eq Vertex
vertex_eq = record { beq = vertex_beq; beq_iff = vertex_beq_iff }

-- A call on the builder. A command and a dispatcher node carry their targets by key.
pub data Call : Type 0 where
  add_command_node add_dispatcher_node : String → Dict String Vertex → Call
  add_agent_node : String → Bool → Call
  add_edge : Vertex → Vertex → Call
  add_join : List Vertex → Vertex → Call

-- What a compilation comes to: the calls, an error with an issue's code, or an internal failure (a
-- failed `assert`, a missing key, an exhausted `next`).
pub data Compiled (A : Type 0) : Type 0 where
  done : A → Compiled A
  failed : IssueCode → Compiled A
  crashed : Compiled A

infixl 5 ◌>>=◌
abbrev pub ◌>>=◌ : {A B : Type 0} → Compiled A → (A → Compiled B) → Compiled B
done a >>= f = f a
failed c >>= f = failed c
crashed >>= f = crashed

abbrev pub require : {A : Type 0} → Option A → Compiled A
require none = crashed
require (some a) = done a

abbrev pub or_fail : {A : Type 0} → IssueCode → Option A → Compiled A
or_fail code none = failed code
or_fail code (some a) = done a

-- The sets of the first loop.
pub record Parted (C : Type 0) : Type 0 where
  pub entry_ids : List String
  pub exit_ids : List String
  pub executable_nodes : List (WorkflowNode C)

-- The dicts of the second loop.
pub record Plan : Type 0 where
  pub edge_types : Dict String EdgeType
  pub branch_targets : Dict String (Dict String Vertex)
  pub dispatch_targets : Dict String (Dict String Vertex)

abbrev pub no_plan : Plan
no_plan = record { edge_types = []; branch_targets = []; dispatch_targets = [] }

module _ {C : Type 0} where
  abbrev pub part_node : RuntimeKind → WorkflowNode C → Parted C → Parted C
  part_node graph_entry n p = record p { entry_ids = add n.id p.entry_ids }
  part_node graph_exit n p = record p { exit_ids = add n.id p.exit_ids }
  part_node _ n p = record p { executable_nodes = p.executable_nodes ++ n ∷ [] }

  unfoldable pub part_nodes : List (WorkflowNode C) → Parted C → Compiled (Parted C)
  part_nodes [] p = done p
  part_nodes (n ∷ nodes) p = do
    spec ← require (node_type_spec n.type n.type_version)
    part_nodes nodes (part_node spec.runtime_kind n p)

-- `END if edge.target in exit_ids else edge.target`
abbrev pub target_vertex : List String → WorkflowEdge → Vertex
target_vertex exit_ids e = if contains e.target exit_ids then finish else node e.target

-- `START if edge.source in entry_ids else edge.source`
abbrev pub source_vertex : List String → WorkflowEdge → Vertex
source_vertex entry_ids e = if contains e.source entry_ids then start else node e.source

abbrev pub targets_at : String → Dict String (Dict String Vertex) → Dict String Vertex
targets_at id targets = elim (lookup id targets) [ none ↦ [] | some by_key ↦ by_key ]

-- `targets.setdefault(source, {})[key] = target`
abbrev pub put_target :
    String → String → Vertex → Dict String (Dict String Vertex) → Dict String (Dict String Vertex)
put_target source key target targets =
    insert source (insert key target (targets_at source targets)) targets

abbrev pub note_branch : List String → WorkflowEdge → String → Plan → Plan
note_branch exit_ids e key p = record p {
  edge_types = insert e.id branch p.edge_types;
  branch_targets = put_target e.source key (target_vertex exit_ids e) p.branch_targets;
}

abbrev pub note_dispatch : List String → WorkflowEdge → String → Plan → Plan
note_dispatch exit_ids e key p = record p {
  edge_types = insert e.id dispatch p.edge_types;
  dispatch_targets = put_target e.source key (target_vertex exit_ids e) p.dispatch_targets;
}

-- `require` stands for the `assert` that the key is there.
abbrev pub plan_typed : List String → WorkflowEdge → EdgeType → Plan → Compiled Plan
plan_typed exit_ids e branch p = do key ← require e.branch_key; done (note_branch exit_ids e key p)
plan_typed exit_ids e dispatch p = do
  key ← require e.dispatch_key
  done (note_dispatch exit_ids e key p)
plan_typed exit_ids e normal p = done (record p { edge_types = insert e.id normal p.edge_types })

module _ {C : Type 0} (table : NodeTable C) (exit_ids : List String) where
  unfoldable pub plan_edge : WorkflowEdge → Plan → Compiled Plan
  plan_edge e p = do
    source ← require (lookup e.source table)
    handle ← require (find_handle source.spec.output_handles e.source_handle)
    plan_typed exit_ids e handle.edge_type p

  unfoldable pub plan_edges : List WorkflowEdge → Plan → Compiled Plan
  plan_edges [] p = done p
  plan_edges (e ∷ edges) p = do p' ← plan_edge e p; plan_edges edges p'

-- `mapping.get(id)`, of which only whether it is there matters.
abbrev pub if_among : String → List String → IssueCode → Call → Compiled Call
if_among id names code call = if contains id names then done call else failed code

-- `agents`, `commands` and `task_dispatchers` are the keys of the mappings that the caller gives.
module _ {C : Type 0} (defers : C → Bool) (agents commands task_dispatchers : List String)
    (p : Plan) where
  unfoldable pub node_call : RuntimeKind → WorkflowNode C → Compiled Call
  node_call command_node n =
      if_among n.id commands Issues.command_not_found
        (add_command_node n.id (targets_at n.id p.branch_targets))
  node_call send_dispatcher n =
      if_among n.id task_dispatchers Issues.task_dispatcher_not_found
        (add_dispatcher_node n.id (targets_at n.id p.dispatch_targets))
  node_call _ n =
      if_among n.id agents Issues.node_graph_missing (add_agent_node n.id (defers n.config))

  unfoldable pub node_calls : List (WorkflowNode C) → Compiled (List Call)
  node_calls [] = done []
  node_calls (n ∷ nodes) = do
    spec ← require (node_type_spec n.type n.type_version)
    call ← node_call spec.runtime_kind n
    calls ← node_calls nodes
    done (call ∷ calls)

abbrev pub Incoming : Type 0
Incoming = Dict Vertex (List Vertex)

abbrev pub sources_of : Vertex → Incoming → List Vertex
sources_of target incoming = elim (lookup target incoming) [ none ↦ [] | some sources ↦ sources ]

-- One round of the loop that groups the normal edges by target.
abbrev pub group_edge : List String → List String → WorkflowEdge → EdgeType → Incoming → Incoming
group_edge entry_ids exit_ids e normal incoming =
    let target = target_vertex exit_ids e in
    insert target (add (source_vertex entry_ids e) (sources_of target incoming)) incoming
group_edge entry_ids exit_ids e _ incoming = incoming

unfoldable pub group_edges :
    List String
    → List String
    → Dict String EdgeType
    → List WorkflowEdge
    → Incoming
    → Compiled Incoming
group_edges entry_ids exit_ids types [] incoming = done incoming
group_edges entry_ids exit_ids types (e ∷ edges) incoming = do
  t ← require (lookup e.id types)
  group_edges entry_ids exit_ids types edges (group_edge entry_ids exit_ids e t incoming)

abbrev pub join_calls : Vertex → List Vertex → List Call
join_calls target [] = []
join_calls target (s ∷ []) = add_edge s target ∷ []
join_calls target (s ∷ s' ∷ rest) = add_join (s ∷ s' ∷ rest) target ∷ []

-- The body of `for target, sources in incoming.items()`.
unfoldable pub edge_calls : Vertex → List Vertex → List Call
edge_calls finish sources = map (λ s. add_edge s finish) sources
edge_calls target sources =
    if contains start sources
    then add_edge start target ∷ join_calls target (keep (λ s. not (s == start)) sources)
    else join_calls target sources

unfoldable pub all_edge_calls : Incoming → List Call
all_edge_calls [] = []
all_edge_calls ((target, sources) ∷ rest) = edge_calls target sources ++ all_edge_calls rest

module _ {C : Type 0} (defers : C → Bool) (agents commands task_dispatchers : List String) where
  -- From here on the document has passed both checks.
  unfoldable pub compile_accepted : List (WorkflowNode C) → List WorkflowEdge → Compiled (List Call)
  compile_accepted nodes edges = do
    parted ← part_nodes nodes (record { entry_ids = []; exit_ids = []; executable_nodes = [] })
    table ← require (place_nodes 0 nodes [])
    plan ← plan_edges table parted.exit_ids edges no_plan
    calls ← node_calls defers agents commands task_dispatchers plan parted.executable_nodes
    incoming ← group_edges parted.entry_ids parted.exit_ids plan.edge_types edges []
    done (calls ++ all_edge_calls incoming)

module _ {C : Type 0} (validate_config : ConfigModel → C → ConfigResult C) (defers : C → Bool)
    (agents commands task_dispatchers : List String) (role : Option WorkflowRole) where
  -- The document as admission hands it on, or the first issue's code.
  abbrev pub admitted_or_fail :
      List Issue × Option (WorkflowGraphDocument C) → Compiled (WorkflowGraphDocument C)
  admitted_or_fail (issues, some document) = done document
  admitted_or_fail ([], none) = crashed
  admitted_or_fail (i ∷ issues, none) = failed i.code

  abbrev pub accepted_or_fail : Option (List Issue) → Compiled (Unit {0})
  accepted_or_fail none = crashed
  accepted_or_fail (some []) = done tt
  accepted_or_fail (some (i ∷ issues)) = failed i.code

  unfoldable pub compile_workflow : WorkflowGraphDocument C → Compiled (List Call)
  compile_workflow document = do
    normalized ← admitted_or_fail (admit_workflow_document validate_config role document)
    _ ← accepted_or_fail (
        validate_workflow_topology (some commands) (some task_dispatchers)
          normalized.definition.nodes normalized.definition.edges)
    compile_accepted defers agents commands task_dispatchers normalized.definition.nodes
        normalized.definition.edges
