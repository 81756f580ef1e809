-- ===== src/Workflow/Compiler/Uncrashed.antt =====
-- The loops of a compilation, where an agent, a command or a dispatcher may be missing.
use deepagent_shell.Prelude.{
  String, ◌≡◌, ◌≢◌, refl, Bool, List, [], ◌∷◌, some, arith, string_eq, All, All-append,
}
use deepagent_shell.Workflow.Contracts.{WorkflowNode, WorkflowEdge}
use deepagent_shell.Workflow.Catalog.{
  RuntimeKind, graph_entry, graph_exit, agent_wrapper, command_node, send_dispatcher,
}
use deepagent_shell.Workflow.Topology.Table.{NodeTable, place_nodes}
use deepagent_shell.Workflow.Topology.Validate.{kind_eq}
use deepagent_shell.Workflow.Topology.Validate.Edges.{EdgeFits}
use deepagent_shell.Workflow.Compiler.{
  Compiled, done, failed, crashed, ◌>>=◌, Parted, Plan, no_plan, part_node, part_nodes, node_call,
  node_calls, compile_accepted,
}
use deepagent_shell.Workflow.Compiler.Total.{plan_edges-Done, group_edges-Done, Supported}

pub bind-ne-crashed :
    {A B : Type 0} (m : Compiled A) (f : A → Compiled B)
    → m ≢ crashed
    → ((a : A) → f a ≢ crashed)
    → (m >>= f) ≢ crashed
bind-ne-crashed (done a) f h k = k a
bind-ne-crashed (failed c) f h k = λ e. cc
bind-ne-crashed crashed f h k = λ e. h refl

module _ {C : Type 0} (defers : C → Bool) (agents commands task_dispatchers : List String) where
  node_call-ne-crashed :
      (plan : Plan) (kind : RuntimeKind) (n : WorkflowNode C)
      → node_call defers agents commands task_dispatchers plan kind n ≢ crashed
  unfolding node_call
  node_call-ne-crashed plan command_node n = ground arith
  node_call-ne-crashed plan send_dispatcher n = ground arith
  node_call-ne-crashed plan _ n = ground arith

  node_calls-ne-crashed :
      (plan : Plan) (nodes : List (WorkflowNode C))
      → All Supported nodes
      → node_calls defers agents commands task_dispatchers plan nodes ≢ crashed
  unfolding node_calls
  node_calls-ne-crashed plan [] h = λ e. cc
  node_calls-ne-crashed plan (n ∷ nodes) h =
      let (spec, found) = h.0 in
      rw found (
        bind-ne-crashed (node_call defers agents commands task_dispatchers plan spec.runtime_kind n)
          _ (node_call-ne-crashed plan spec.runtime_kind n)
          (λ call.
            bind-ne-crashed (node_calls defers agents commands task_dispatchers plan nodes) _
              (node_calls-ne-crashed plan nodes h.1) (λ calls e. cc)))

  part_nodes-Supported :
      (nodes : List (WorkflowNode C)) (p : Parted C)
      → All Supported nodes
      → All Supported p.executable_nodes
      → (p' : Parted C) × (part_nodes nodes p ≡ done p') × All Supported p'.executable_nodes
  unfolding part_nodes
  part_nodes-Supported [] p h k = (p, refl, k)
  part_nodes-Supported (n ∷ nodes) p h k =
      let (spec, found) = h.0 in
      let (p', e, k') =
        part_nodes-Supported nodes (part_node spec.runtime_kind n p) h.1
          (kept spec.runtime_kind n p h.0 k) in
      (p', rw found e, k')
    where
      kept :
          (kind : RuntimeKind) (x : WorkflowNode C) (q : Parted C)
          → Supported x
          → All Supported q.executable_nodes
          → All Supported (part_node kind x q).executable_nodes
      kept graph_entry x q s l = l
      kept graph_exit x q s l = l
      kept agent_wrapper x q s l = All-append Supported q.executable_nodes (x ∷ []) l (s, tt)
      kept command_node x q s l = All-append Supported q.executable_nodes (x ∷ []) l (s, tt)
      kept send_dispatcher x q s l = All-append Supported q.executable_nodes (x ∷ []) l (s, tt)

  pub compile_accepted-ne-crashed :
      (nodes : List (WorkflowNode C)) (edges : List WorkflowEdge) (table : NodeTable C)
      → All Supported nodes
      → place_nodes 0 nodes [] ≡ some table
      → All (EdgeFits table) edges
      → compile_accepted defers agents commands task_dispatchers nodes edges ≢ crashed
  unfolding compile_accepted
  compile_accepted-ne-crashed nodes edges table h placed fits =
      let (parted, e1, supported) =
        part_nodes-Supported nodes (record { entry_ids = []; exit_ids = []; executable_nodes = [] })
          h tt in
      let (plan, e2, noted, _) = plan_edges-Done table parted.exit_ids edges no_plan fits in
      let (incoming, e4) =
        group_edges-Done parted.entry_ids parted.exit_ids plan.edge_types edges [] noted in
      rw (e1, placed, e2)
        (bind-ne-crashed
          (node_calls defers agents commands task_dispatchers plan parted.executable_nodes) _
          (node_calls-ne-crashed plan parted.executable_nodes supported) (λ calls. rw e4 (λ e. cc)))
