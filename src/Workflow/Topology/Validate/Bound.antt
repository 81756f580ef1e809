-- ===== src/Workflow/Topology/Validate/Bound.antt =====
-- The dispatches and the bound parts of a workflow that `validate_workflow_topology` has no issue with.
use deepagent_shell.Prelude.{
  All-map, ℕ, String, ◌≡◌, refl, true, false, List, [], ◌∷◌, Option, some, arith, Dict, lookup,
  contains, is_some, string_eq, option_eq, pair_eq, any, All, append-eq-nil, sym, ◌∙◌, beq_refl,
}
use deepagent_shell.Workflow.Contracts.{WorkflowNode, WorkflowEdge}
use deepagent_shell.Workflow.Catalog.{
  EdgeType, dispatch, edge_type_eq, edge_type_beq_iff, command_node, send_dispatcher,
}
use deepagent_shell.Workflow.Topology.Table.{NodeTable, place_nodes}
use deepagent_shell.Workflow.Topology.Scan.{fresh, scan_edges, types_at, is_routed, Routed, by_key}
use deepagent_shell.Workflow.Topology.Scan.Report.{enters, dispatch_before}
use deepagent_shell.Workflow.Topology.Scan.Tracks.{scan_edges-eq-report, fresh-Tracks}
use deepagent_shell.Workflow.Topology.Validate.{
  is_empty, validate_workflow_topology, command_issues, dispatcher_issues, mixed_issues, has_kind,
  dispatcher_node_issues, has_no_route, is_mixed,
}
use deepagent_shell.Workflow.Topology.Validate.Parts.{validate-Parts}

mixed_at :
    {C : Type 0} (table : NodeTable C) (incoming : Dict String (List EdgeType)) (n : String)
    → mixed_issues table incoming ≡ []
    → is_mixed (types_at (lookup n incoming)) ≡ false
unfolding mixed_issues lookup
mixed_at table [] n h = refl
mixed_at table ((id, types) ∷ rest) n h = ground (arith, mixed_at table rest n)

only_dispatch :
    (types : List EdgeType) (t : EdgeType)
    → is_mixed types ≡ false
    → contains dispatch types ≡ true
    → contains t types ≡ true
    → t ≡ dispatch
only_dispatch [] t h d m = cc
only_dispatch (x ∷ []) t h d m = ground (arith, edge_type_beq_iff t x, edge_type_beq_iff dispatch x)
only_dispatch (x ∷ y ∷ types) t h d m = absurd (ground arith)

-- In a workflow without issues a node that a dispatch edge enters is entered by dispatch edges only.
pub accepted-workers :
    {C : Type 0} (commands task_dispatchers : Option (List String)) (nodes : List (WorkflowNode C))
    (edges : List WorkflowEdge)
    → validate_workflow_topology commands task_dispatchers nodes edges ≡ some []
    → (table : NodeTable C) × (place_nodes 0 nodes [] ≡ some table)
      × ((n : String) (t : EdgeType)
          → any (enters table n dispatch) edges ≡ true
          → any (enters table n t) edges ≡ true
          → t ≡ dispatch)
accepted-workers commands task_dispatchers nodes edges h =
    let p = validate-Parts commands task_dispatchers nodes edges h in
    let tracks = (scan_edges-eq-report 0 edges [] fresh (fresh-Tracks p.table)).1 in
    (
      p.table,
      p.placed,
      λ n t d m.
          only_dispatch (types_at (lookup n (scan_edges p.table 0 edges fresh).incoming_edge_types))
            t (mixed_at p.table _ n p.mixed_clean) (tracks.incoming n dispatch ∙ d)
            (tracks.incoming n t ∙ m),
    )

bound_commands :
    {C : Type 0} (table : NodeTable C) (names : List String) (nodes : List (WorkflowNode C))
    → command_issues table names nodes ≡ []
    → All (λ n. has_kind table n.id command_node ≡ true → contains n.id names ≡ true) nodes
unfolding command_issues
bound_commands table names [] h = tt
bound_commands table names (n ∷ nodes) h =
    (λ k. ground arith, bound_commands table names nodes (ground arith))

-- The dispatcher `id` is bound to one of `names`, and a dispatch edge leaves it under some key.
abbrev pub IsBound : {C : Type 0} → NodeTable C → List WorkflowEdge → List String → String → Type 0
IsBound table edges names id =
    (contains id names ≡ true) × (key : String) × (dispatch_before table edges id key ≡ true)

some_key :
    (keys : Dict String ℕ)
    → is_empty keys ≡ false
    → (key : String) × (is_some (lookup key keys) ≡ true)
unfolding lookup
some_key [] h = cc
some_key ((key, i) ∷ keys) h = (key, rw (beq_refl key))

some_route :
    (routed : Routed) (id : String)
    → has_no_route routed id ≡ false
    → (key : String) × (is_routed id key routed ≡ true)
unfolding is_routed
some_route routed id h = some_key (by_key id routed) h

bound_dispatcher :
    {C : Type 0} (table : NodeTable C) (names : List String) (routed : Routed) (n : WorkflowNode C)
    → dispatcher_node_issues table names routed n ≡ []
    → has_kind table n.id send_dispatcher ≡ true
    → (contains n.id names ≡ true) × (has_no_route routed n.id ≡ false)
unfolding dispatcher_node_issues
bound_dispatcher table names routed n h k = ground arith

dispatcher_nodes_clean :
    {C : Type 0} (table : NodeTable C) (names : List String) (routed : Routed)
    (nodes : List (WorkflowNode C))
    → dispatcher_issues table names routed nodes ≡ []
    → All (λ n. dispatcher_node_issues table names routed n ≡ []) nodes
unfolding dispatcher_issues
dispatcher_nodes_clean table names routed [] h = tt
dispatcher_nodes_clean table names routed (n ∷ nodes) h =
    let (now, later) =
      append-eq-nil (dispatcher_node_issues table names routed n)
        (dispatcher_issues table names routed nodes) h in
    (now, dispatcher_nodes_clean table names routed nodes later)

-- In a workflow without issues every command node is among the commands given, and every dispatcher node
-- is among the dispatchers given and has a dispatch edge.
pub accepted-IsBound :
    {C : Type 0} (commands task_dispatchers : List String) (nodes : List (WorkflowNode C))
    (edges : List WorkflowEdge)
    → validate_workflow_topology (some commands) (some task_dispatchers) nodes edges ≡ some []
    → (table : NodeTable C) × (place_nodes 0 nodes [] ≡ some table)
      × All (λ n. has_kind table n.id command_node ≡ true → contains n.id commands ≡ true) nodes
      × All
          (λ n.
            has_kind table n.id send_dispatcher ≡ true → IsBound table edges task_dispatchers n.id)
          nodes
accepted-IsBound commands task_dispatchers nodes edges h =
    let p = validate-Parts (some commands) (some task_dispatchers) nodes edges h in
    let tracks = (scan_edges-eq-report 0 edges [] fresh (fresh-Tracks p.table)).1 in
    let routed = (scan_edges p.table 0 edges fresh).routed_dispatches in
    (
      p.table,
      p.placed,
      bound_commands p.table commands nodes p.commands_clean,
      All-map
          (λ n clean is_dispatcher.
            let (named, has_route) =
              bound_dispatcher p.table task_dispatchers routed n clean is_dispatcher in
            let (key, r) = some_route routed n.id has_route in
            (named, key, sym (tracks.dispatches n.id key) ∙ r))
          nodes (dispatcher_nodes_clean p.table task_dispatchers routed nodes p.dispatchers_clean),
    )
