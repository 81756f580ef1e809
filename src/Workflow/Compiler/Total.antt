-- ===== src/Workflow/Compiler/Total.antt =====
-- The loops of a compilation on nodes and edges that the checks let through.
use deepagent_shell.Prelude.{
  String, ◌≡◌, refl, Bool, true, inl, inr, List, [], ◌∷◌, ◌++◌, some, arith, Dict, lookup, insert,
  contains, is_some, string_eq, All, All-append, lookup-insert, Option-cases,
}
use text.Mathlib.TextEquality.{eq_iff}
use deepagent_shell.Workflow.Contracts.{WorkflowNode, WorkflowEdge}
use deepagent_shell.Workflow.Catalog.{
  NodeTypeSpec, node_type_spec, RuntimeKind, graph_entry, graph_exit, agent_wrapper, command_node,
  send_dispatcher, EdgeType, normal, branch, dispatch,
}
use deepagent_shell.Workflow.Topology.Table.{NodeTable, place_nodes}
use deepagent_shell.Workflow.Topology.Validate.{kind_eq}
use deepagent_shell.Workflow.Topology.Validate.Edges.{EdgeFits, GoodEdge, EachAfter, KeysFit}
use deepagent_shell.Workflow.Compiler.{
  add_command_node, add_dispatcher_node, add_agent_node, targets_at, Compiled, done, Parted, Plan,
  no_plan, part_node, part_nodes, plan_typed, note_branch, note_dispatch, plan_edge, plan_edges,
  node_call, node_calls, Incoming, group_edge, group_edges, all_edge_calls, compile_accepted,
}

-- The computation ends with a value.
abbrev pub Done : {A : Type 0} → Compiled A → Type 0
Done {A} m = (a : A) × (m ≡ done a)

module _ {C : Type 0} where
  abbrev pub Supported : WorkflowNode C → Type 0
  Supported n = (spec : NodeTypeSpec) × (node_type_spec n.type n.type_version ≡ some spec)

  pub edges_fit :
      (table : NodeTable C) (before edges : List WorkflowEdge)
      → EachAfter (GoodEdge table) before edges
      → All (EdgeFits table) edges
  edges_fit table before [] h = tt
  edges_fit table before (e ∷ edges) h = (h.0.fits, edges_fit table (before ++ e ∷ []) edges h.1)

-- The edge's type has been noted.
abbrev Noted : Dict String EdgeType → WorkflowEdge → Type 0
Noted types e = is_some (lookup e.id types) ≡ true

Noted-insert :
    (id : String) (t : EdgeType) (types : Dict String EdgeType) (e : WorkflowEdge)
    → Noted types e
    → Noted (insert id t types) e
Noted-insert id t types e h = ground (arith, lookup-insert id e.id t types)

Noted-insert_self :
    (e : WorkflowEdge) (t : EdgeType) (types : Dict String EdgeType) → Noted (insert e.id t types) e
Noted-insert_self e t types = ground (arith, lookup-insert e.id e.id t types, eq_iff e.id e.id)

plan_typed-Done :
    (exit_ids : List String) (e : WorkflowEdge) (t : EdgeType) (p : Plan)
    → KeysFit t e
    → (p' : Plan) × (plan_typed exit_ids e t p ≡ done p')
      × (p'.edge_types ≡ insert e.id t p.edge_types)
plan_typed-Done exit_ids e normal p h =
    (record p { edge_types = insert e.id normal p.edge_types }, refl, refl)
plan_typed-Done exit_ids e branch p h = elim (Option-cases e.branch_key) [
  | inl missing ↦ absurd (ground arith)
  | inr (key, found) ↦ (note_branch exit_ids e key p, rw found, refl)
]
plan_typed-Done exit_ids e dispatch p h = elim (Option-cases e.dispatch_key) [
  | inl missing ↦ absurd (ground arith)
  | inr (key, found) ↦ (note_dispatch exit_ids e key p, rw found, refl)
]

module _ {C : Type 0} (table : NodeTable C) (exit_ids : List String) where
  plan_edge-Done :
      (e : WorkflowEdge) (p : Plan)
      → EdgeFits table e
      → (p' : Plan) × (plan_edge table exit_ids e p ≡ done p')
        × Noted p'.edge_types e
        × ((x : WorkflowEdge) → Noted p.edge_types x → Noted p'.edge_types x)
  unfolding plan_edge
  plan_edge-Done e p fits =
      let t = fits.source_handle.edge_type in
      let (p', eq, types) = plan_typed-Done exit_ids e t p fits.keys_fit in
      (
        p',
        rw (fits.source_found, fits.source_handle_found) eq,
        rw types (Noted-insert_self e t p.edge_types),
        λ x h. rw types (Noted-insert e.id t p.edge_types x h),
      )

  pub plan_edges-Done :
      (edges : List WorkflowEdge) (p : Plan)
      → All (EdgeFits table) edges
      → (p' : Plan) × (plan_edges table exit_ids edges p ≡ done p')
        × All (Noted p'.edge_types) edges
        × ((x : WorkflowEdge) → Noted p.edge_types x → Noted p'.edge_types x)
  unfolding plan_edges
  plan_edges-Done [] p h = (p, refl, tt, λ x k. k)
  plan_edges-Done (e ∷ edges) p h =
      let (p1, eq1, noted, kept1) = plan_edge-Done e p h.0 in
      let (p2, eq2, rest, kept2) = plan_edges-Done edges p1 h.1 in
      (p2, rw eq1 eq2, (kept2 e noted, rest), λ x k. kept2 x (kept1 x k))

pub group_edges-Done :
    (entry_ids exit_ids : List String) (types : Dict String EdgeType) (edges : List WorkflowEdge)
    (incoming : Incoming)
    → All (Noted types) edges
    → Done (group_edges entry_ids exit_ids types edges incoming)
unfolding group_edges
group_edges-Done entry_ids exit_ids types [] incoming h = (incoming, refl)
group_edges-Done entry_ids exit_ids types (e ∷ edges) incoming h =
    elim (Option-cases (lookup e.id types)) [
      | inl missing ↦ absurd (ground arith)
      | inr (t, found) ↦
          let (r, eq) =
            group_edges-Done entry_ids exit_ids types edges
              (group_edge entry_ids exit_ids e t incoming) h.1 in
          (r, rw found eq)
    ]

-- What the function of a node of this kind is made from is among what the caller gives.
abbrev pub Given : (agents commands task_dispatchers : List String) → String → RuntimeKind → Type 0
Given agents commands task_dispatchers id command_node = contains id commands ≡ true
Given agents commands task_dispatchers id send_dispatcher = contains id task_dispatchers ≡ true
Given agents commands task_dispatchers id agent_wrapper = contains id agents ≡ true
Given agents commands task_dispatchers id _ = Unit

abbrev IsExecutable : RuntimeKind → Type 0
IsExecutable graph_entry = ⊥
IsExecutable graph_exit = ⊥
IsExecutable _ = Unit

module _ {C : Type 0} (agents commands task_dispatchers : List String) where
  abbrev pub HasParts : WorkflowNode C → Type 0
  HasParts n =
      (spec : NodeTypeSpec) × (node_type_spec n.type n.type_version ≡ some spec)
      × Given agents commands task_dispatchers n.id spec.runtime_kind

  abbrev pub IsReady : WorkflowNode C → Type 0
  IsReady n =
      (spec : NodeTypeSpec) × (node_type_spec n.type n.type_version ≡ some spec)
      × Given agents commands task_dispatchers n.id spec.runtime_kind
      × IsExecutable spec.runtime_kind

  part_node-IsReady :
      (kind : RuntimeKind) (n : WorkflowNode C) (p : Parted C)
      → (IsExecutable kind → IsReady n)
      → All IsReady p.executable_nodes
      → All IsReady (part_node kind n p).executable_nodes
  part_node-IsReady graph_entry n p h k = k
  part_node-IsReady graph_exit n p h k = k
  part_node-IsReady agent_wrapper n p h k =
      All-append IsReady p.executable_nodes (n ∷ []) k (h tt, tt)
  part_node-IsReady command_node n p h k =
      All-append IsReady p.executable_nodes (n ∷ []) k (h tt, tt)
  part_node-IsReady send_dispatcher n p h k =
      All-append IsReady p.executable_nodes (n ∷ []) k (h tt, tt)

  part_nodes-Done :
      (nodes : List (WorkflowNode C)) (p : Parted C)
      → All HasParts nodes
      → All IsReady p.executable_nodes
      → (p' : Parted C) × (part_nodes nodes p ≡ done p') × All IsReady p'.executable_nodes
  unfolding part_nodes
  part_nodes-Done [] p h k = (p, refl, k)
  part_nodes-Done (n ∷ nodes) p h k =
      let (spec, found, given) = h.0 in
      let (p', e, k') =
        part_nodes-Done nodes (part_node spec.runtime_kind n p) h.1
          (part_node-IsReady spec.runtime_kind n p (λ x. (spec, found, given, x)) k) in
      (p', rw found e, k')

  module _ (defers : C → Bool) (plan : Plan) where
    node_call-Done :
        (n : WorkflowNode C) (kind : RuntimeKind)
        → Given agents commands task_dispatchers n.id kind
        → IsExecutable kind
        → Done (node_call defers agents commands task_dispatchers plan kind n)
    unfolding node_call
    node_call-Done n command_node h x =
        (add_command_node n.id (targets_at n.id plan.branch_targets), rw h)
    node_call-Done n send_dispatcher h x =
        (add_dispatcher_node n.id (targets_at n.id plan.dispatch_targets), rw h)
    node_call-Done n agent_wrapper h x = (add_agent_node n.id (defers n.config), rw h)
    node_call-Done n graph_entry h x = absurd x
    node_call-Done n graph_exit h x = absurd x

    node_calls-Done :
        (nodes : List (WorkflowNode C))
        → All IsReady nodes
        → Done (node_calls defers agents commands task_dispatchers plan nodes)
    unfolding node_calls
    node_calls-Done [] h = ([], refl)
    node_calls-Done (n ∷ nodes) h =
        let (spec, found, given, x) = h.0 in
        let (call, e) = node_call-Done n spec.runtime_kind given x in
        let (calls, es) = node_calls-Done nodes h.1 in (call ∷ calls, rw (found, e, es))

  -- The two later loops and the calls, given the plan's parts.
  pub compile_accepted-Done :
      (defers : C → Bool) (nodes : List (WorkflowNode C)) (edges : List WorkflowEdge)
      (table : NodeTable C)
      → All HasParts nodes
      → place_nodes 0 nodes [] ≡ some table
      → All (EdgeFits table) edges
      → Done (compile_accepted defers agents commands task_dispatchers nodes edges)
  unfolding compile_accepted
  compile_accepted-Done defers nodes edges table h placed fits =
      let (parted, e1, ready) =
        part_nodes-Done nodes (record { entry_ids = []; exit_ids = []; executable_nodes = [] }) h
          tt in
      let (plan, e2, noted, _) = plan_edges-Done table parted.exit_ids edges no_plan fits in
      let (calls, e3) = node_calls-Done defers plan parted.executable_nodes ready in
      let (incoming, e4) =
        group_edges-Done parted.entry_ids parted.exit_ids plan.edge_types edges [] noted in
      (calls ++ all_edge_calls incoming, rw (e1, placed, e2, e3, e4))
