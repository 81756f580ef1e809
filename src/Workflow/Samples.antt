-- ===== src/Workflow/Samples.antt =====
-- A workflow of every node type: a Start node, an agent, a command that branches back to the agent or on
-- to a dispatcher, the dispatcher's worker, and an End node. A config is the id of the node's main agent.
use deepagent_shell.Prelude.{
  String, Bool, true, false, List, [], ◌∷◌, ◌++◌, Option, none, some, ◌≡◌, ◌≢◌, refl, if◌then◌else◌,
  string_eq, ◌==◌, lookup, insert, contains, any, All, pair_eq, nat_eq, ap, ◌∙◌, option_eq,
}
use deepagent_shell.Workflow.Contracts.{WorkflowNode, WorkflowEdge, WorkflowGraphDocument}
use deepagent_shell.Workflow.Catalog.{
  EdgeType, dispatch, ConfigModel, agent_node, child, role_eq, NodeTypeSpec, node_type_spec,
  is_supported_type, accepts, command_node, send_dispatcher, agent_wrapper, RuntimeKind,
  edge_type_eq,
}
use deepagent_shell.Workflow.Issues.{Issue}
use deepagent_shell.Workflow.Topology.Table.{NodeTable, place_nodes, find_handle, endpoints}
use deepagent_shell.Workflow.Topology.Scan.{
  fresh, scan_edge, scan_edges, endpoint_issues, key_issues, claim, is_routed,
}
use deepagent_shell.Workflow.Topology.Scan.Report.{report, enters, fits_from}
use deepagent_shell.Workflow.Topology.Scan.Tracks.{scan_edges-report}
use deepagent_shell.Workflow.Topology.Reach.{
  link, link_edges, push, push_targets, explore, reachable_from,
}
use deepagent_shell.Workflow.Topology.Reach.Fuel.{reachable_from-total}
use deepagent_shell.Workflow.Topology.Reach.Paths.{Reach, reachable_from-iff-Reach}
use deepagent_shell.Workflow.Topology.Validate.{
  command_issues, dispatcher_node_issues, dispatcher_issues, mixed_issues, ids_of_type,
  start_issues, unreachable_issues, search_issues, count_issues, validate_workflow_topology,
  has_kind,
}
use deepagent_shell.Workflow.Topology.Validate.Edges.{GoodEdge, EachAfter}
use deepagent_shell.Workflow.Topology.Validate.Accepted.{
  accepted-GoodEdge, accepted-IsOnlyOne, accepted-Reach, IsOnlyOne,
}
use deepagent_shell.Workflow.Topology.Validate.Bound.{accepted-workers, accepted-IsBound, IsBound}
use deepagent_shell.Workflow.Admission.{
  ConfigResult, valid, invalid, edge_id_issues, layout_issues, normalize_nodes, admission_issues,
  admit_workflow_document,
}
use deepagent_shell.Workflow.Admission.Admitted.{IsAdmitted, admit-IsAdmitted}
use deepagent_shell.Workflow.Executable.{agent_issues, validate_workflow_executable}
use deepagent_shell.Workflow.Executable.Total.{
  validate_workflow_executable-total, uncached_issues, agent_issues-eq-uncached_issues,
}
use deepagent_shell.Workflow.Compiler.{compile_workflow, crashed}
use deepagent_shell.Workflow.Compiler.Total.{Done}
use deepagent_shell.Workflow.Compiler.Checked.{
  HasAgent, compile_workflow-ne-crashed, compile_workflow-Done,
}

abbrev node : String → String → String → WorkflowNode String
node id type config = record { id = id; type = type; type_version = 1; config = config }

abbrev edge : String → String → String → Option String → Option String → WorkflowEdge
edge source handle target branch_key dispatch_key = record {
  id = source;
  source = source;
  source_handle = handle;
  target = target;
  target_handle = "in";
  branch_key = branch_key;
  dispatch_key = dispatch_key;
}

abbrev sample_nodes : List (WorkflowNode String)
sample_nodes =
    node "s" "start" ""
    ∷ node "a" "agent" "writer"
    ∷ node "c" "command" ""
    ∷ node "d" "task-dispatcher" ""
    ∷ node "w" "agent" "worker"
    ∷ node "e" "end" ""
    ∷ []

abbrev sample_edges : List WorkflowEdge
sample_edges =
    edge "s" "next" "a" none none
    ∷ edge "a" "next" "c" none none
    ∷ record (edge "c" "branch" "a" (some "again") none) { id = "back" }
    ∷ edge "c" "branch" "d" (some "fan") none
    ∷ edge "d" "dispatch" "w" none (some "job")
    ∷ edge "w" "next" "e" none none
    ∷ []

abbrev commands : List String
commands = "c" ∷ []

abbrev dispatchers : List String
dispatchers = "d" ∷ []

abbrev agents : List String
agents = "a" ∷ "w" ∷ []

-- The config of an agent node needs an agent.
abbrev sample_config : ConfigModel → String → ConfigResult String
sample_config agent_node c = if c == "" then invalid "missing" [] else valid c
sample_config _ c = valid c

abbrev sample_document : WorkflowGraphDocument String
sample_document = record {
  definition = record { nodes = sample_nodes; edges = sample_edges };
  layout_nodes = "s" ∷ "e" ∷ [];
}

-- The same with an agent node that no edge reaches, whose config the admission refuses.
abbrev wrong_document : WorkflowGraphDocument String
wrong_document = record sample_document {
  definition = record { nodes = sample_nodes ++ node "x" "agent" "" ∷ []; edges = sample_edges };
}

sample_clean :
    validate_workflow_topology (some commands) (some dispatchers) sample_nodes sample_edges
    ≡ some []
unfolding validate_workflow_topology place_nodes insert lookup node_type_spec scan_edges scan_edge
    endpoints find_handle endpoint_issues accepts key_issues claim is_routed command_issues
    dispatcher_issues dispatcher_node_issues mixed_issues ids_of_type count_issues start_issues
    search_issues unreachable_issues reachable_from link_edges link explore push_targets push
sample_clean = refl

sample_admitted :
    (admit_workflow_document sample_config (some child) sample_document).1 ≡ some sample_document
unfolding admit_workflow_document admission_issues normalize_nodes edge_id_issues layout_issues
    node_type_spec is_supported_type lookup insert
sample_admitted = refl

abbrev main_agent : String → String
main_agent c = c

abbrev agent_report : String → List Issue
agent_report id = []

abbrev waits : String → Bool
waits c = false

accepted-GoodEdge_example :
    (table : NodeTable String) × (place_nodes 0 sample_nodes [] ≡ some table)
    × EachAfter (GoodEdge table) [] sample_edges
accepted-GoodEdge_example =
    accepted-GoodEdge (some commands) (some dispatchers) sample_nodes sample_edges sample_clean

accepted-IsOnlyOne_example :
    (table : NodeTable String) × (place_nodes 0 sample_nodes [] ≡ some table)
    × (s : String) × IsOnlyOne "start" sample_nodes s
    × (any (fits_from table s) sample_edges ≡ true)
    × (e : String) × IsOnlyOne "end" sample_nodes e
accepted-IsOnlyOne_example =
    accepted-IsOnlyOne (some commands) (some dispatchers) sample_nodes sample_edges sample_clean

accepted-Reach_example :
    (table : NodeTable String) × (place_nodes 0 sample_nodes [] ≡ some table)
    × All
        (λ n. n.type ≢ "end" → Reach table sample_edges (ids_of_type "start" sample_nodes []) n.id)
        sample_nodes
accepted-Reach_example =
    accepted-Reach (some commands) (some dispatchers) sample_nodes sample_edges sample_clean

accepted-workers_example :
    (table : NodeTable String) × (place_nodes 0 sample_nodes [] ≡ some table)
    × ((n : String) (t : EdgeType)
        → any (enters table n dispatch) sample_edges ≡ true
        → any (enters table n t) sample_edges ≡ true
        → t ≡ dispatch)
accepted-workers_example =
    accepted-workers (some commands) (some dispatchers) sample_nodes sample_edges sample_clean

accepted-IsBound_example :
    (table : NodeTable String) × (place_nodes 0 sample_nodes [] ≡ some table)
    × All
        (λ n. has_kind table n.id command_node ≡ true → contains n.id commands ≡ true)
        sample_nodes
    × All
        (λ n.
          has_kind table n.id send_dispatcher ≡ true → IsBound table sample_edges dispatchers n.id)
        sample_nodes
accepted-IsBound_example =
    accepted-IsBound commands dispatchers sample_nodes sample_edges sample_clean

admit-IsAdmitted_example : IsAdmitted sample_config (some child) sample_document
admit-IsAdmitted_example =
    admit-IsAdmitted sample_config (some child) sample_document sample_document sample_admitted

validate_workflow_executable-total_example :
    (found : List Issue) × (validate_workflow_executable sample_config main_agent agent_report
        (some commands)
        (some dispatchers)
        (some child)
        wrong_document
      ≡ some found)
validate_workflow_executable-total_example =
    validate_workflow_executable-total sample_config main_agent agent_report (some commands)
      (some dispatchers) (some child) wrong_document

agent_issues_example :
    agent_issues main_agent agent_report 0 [] sample_nodes
    ≡ uncached_issues main_agent agent_report 0 sample_nodes
agent_issues_example = agent_issues-eq-uncached_issues main_agent agent_report 0 sample_nodes

abbrev sample_table : (t : NodeTable String) × (place_nodes 0 sample_nodes [] ≡ some t)
unfolding place_nodes insert lookup node_type_spec
sample_table = (_, refl)

scan_edges-report_example :
    (scan_edges (sample_table.0) 0 sample_edges fresh).issues
    ≡ report (sample_table.0) [] 0 sample_edges
scan_edges-report_example = scan_edges-report (sample_table.0) sample_edges

reachable_from-total_example :
    (found : List String) × (reachable_from sample_table.0 sample_edges ("s" ∷ []) ≡ some found)
reachable_from-total_example = reachable_from-total sample_table.0 sample_edges ("s" ∷ [])

abbrev reached : List String
reached = "s" ∷ "a" ∷ "c" ∷ "d" ∷ "w" ∷ "e" ∷ []

sample_found : reachable_from sample_table.0 sample_edges ("s" ∷ []) ≡ some reached
unfolding sample_table lookup insert reachable_from link_edges link explore push_targets push
sample_found = refl

reachable_from-iff-Reach_example :
    (contains {A = String} "w" reached ≡ true → Reach sample_table.0 sample_edges ("s" ∷ []) "w")
    × (Reach sample_table.0 sample_edges ("s" ∷ []) "w" → contains {A = String} "w" reached ≡ true)
reachable_from-iff-Reach_example =
    reachable_from-iff-Reach sample_table.0 sample_edges ("s" ∷ []) reached sample_found "w"

compile_workflow-ne-crashed_example :
    compile_workflow sample_config waits agents commands dispatchers (some child) wrong_document
    ≢ crashed
compile_workflow-ne-crashed_example =
    compile_workflow-ne-crashed sample_config waits agents commands dispatchers (some child)
      wrong_document

abbrev kind_of : Option NodeTypeSpec → Option RuntimeKind
kind_of none = none
kind_of (some spec) = some spec.runtime_kind

kind_found :
    (found : Option NodeTypeSpec) (spec : NodeTypeSpec)
    → found ≡ some spec
    → spec.runtime_kind ≡ agent_wrapper
    → kind_of found ≡ some agent_wrapper
kind_found found spec e k = ap kind_of e ∙ ap some k

has_agents :
    All (HasAgent sample_config waits agents commands dispatchers (some child)) sample_nodes
unfolding node_type_spec lookup
has_agents = (
  λ spec e k. cc (kind_found (node_type_spec "start" 1) spec e k),
  (
    λ spec e k. refl,
    (
      λ spec e k. cc (kind_found (node_type_spec "command" 1) spec e k),
      (
        λ spec e k. cc (kind_found (node_type_spec "task-dispatcher" 1) spec e k),
        (λ spec e k. refl, (λ spec e k. cc (kind_found (node_type_spec "end" 1) spec e k), tt)),
      ),
    ),
  ),
)

compile_workflow-Done_example :
    Done (
      compile_workflow sample_config waits agents commands dispatchers (some child) sample_document)
compile_workflow-Done_example =
    compile_workflow-Done sample_config waits agents commands dispatchers (some child)
      sample_document sample_document sample_admitted sample_clean has_agents
