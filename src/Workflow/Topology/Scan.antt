-- ===== src/Workflow/Topology/Scan.antt =====
-- The loop over the edges in `validate_workflow_topology`: one pass, with the sets and dicts that it
-- fills as it goes.
pub mod Report
pub mod Tracks
use deepagent_shell.Prelude.{
  ℕ, suc, String, Bool, true, false, not, ◌&&◌, List, [], ◌∷◌, ◌++◌, Option, none, some, Dict,
  lookup, insert, contains, add, is_some, if◌then◌else◌, Eq, ◌==◌, string_eq, pair_eq, option_eq,
}
use deepagent_shell.Workflow.Contracts.{WorkflowEdge}
use deepagent_shell.Workflow.Catalog.{
  EdgeType, normal, branch, dispatch, edge_type_eq, NodeHandleSpec, accepts,
}
use deepagent_shell.Workflow.Issues.{
  Issue, when, edge_issue, IssueCode, edge_source_not_found, edge_target_not_found,
  edge_source_handle_invalid, edge_target_handle_invalid, edge_type_mismatch, edge_duplicate,
  branch_key_required, branch_key_duplicate, branch_key_not_allowed, dispatch_key_required,
  dispatch_key_duplicate, dispatch_key_not_allowed,
}
use deepagent_shell.Workflow.Topology.Table.{Placed, NodeTable, Endpoints, endpoints}

abbrev pub Connection : Type 0
Connection = String × (String × (String × (String × (Option String × Option String))))

abbrev pub connection : WorkflowEdge → Connection
connection e =
    (e.source, (e.source_handle, (e.target, (e.target_handle, (e.branch_key, e.dispatch_key)))))

abbrev pub Routed : Type 0
Routed = Dict String (Dict String ℕ)

pub record Scan : Type 0 where
  pub issues : List Issue
  pub connections : List Connection
  pub routed_branches : Routed
  pub routed_dispatches : Routed
  pub incoming_edge_types : Dict String (List EdgeType)
  pub endpoint_compatible_sources : List String

abbrev pub fresh : Scan
fresh = record {
  issues = [];
  connections = [];
  routed_branches = [];
  routed_dispatches = [];
  incoming_edge_types = [];
  endpoint_compatible_sources = [];
}

-- Both handles are there, and the edge's type is not among those that the target accepts.
abbrev pub is_mismatch : Option NodeHandleSpec → Option NodeHandleSpec → Bool
is_mismatch (some s) (some t) = not (accepts t s.edge_type)
is_mismatch _ _ = false

-- Both handles are there, and the types fit. A handle is there only if its node is.
abbrev pub is_compatible : Option NodeHandleSpec → Option NodeHandleSpec → Bool
is_compatible (some s) (some t) = accepts t s.edge_type
is_compatible _ _ = false

-- `connections` is a set: adding a connection that is there, as the other branch of the test does not,
-- would change nothing.
check_duplicate : ℕ → WorkflowEdge → Scan → Scan
check_duplicate index edge s = record s {
  issues =
      s.issues
      ++ when (contains (connection edge) s.connections)
          (edge_issue edge.id index edge_duplicate "");
  connections = add (connection edge) s.connections;
}

abbrev pub types_at : Option (List EdgeType) → List EdgeType
types_at none = []
types_at (some types) = types

module _ {C : Type 0} where
  unfoldable pub endpoint_issues : ℕ → WorkflowEdge → Endpoints C → List Issue
  endpoint_issues index edge ep =
      when (not (is_some ep.source)) (edge_issue edge.id index edge_source_not_found "source")
      ++ (when (not (is_some ep.target)) (edge_issue edge.id index edge_target_not_found "target")
          ++ (when (is_some ep.source && not (is_some ep.source_handle))
                (edge_issue edge.id index edge_source_handle_invalid "source_handle")
              ++ (when (is_some ep.target && not (is_some ep.target_handle))
                    (edge_issue edge.id index edge_target_handle_invalid "target_handle")
                  ++ when (is_mismatch ep.source_handle ep.target_handle)
                      (edge_issue edge.id index edge_type_mismatch ""))))

  abbrev pub add_compatible : Option (Placed C) → Bool → List String → List String
  add_compatible (some p) true sources = add p.node.id sources
  add_compatible _ _ sources = sources

  check_endpoints : ℕ → WorkflowEdge → Endpoints C → Scan → Scan
  check_endpoints index edge ep s = record s {
    issues = s.issues ++ endpoint_issues index edge ep;
    endpoint_compatible_sources =
        add_compatible ep.source (is_compatible ep.source_handle ep.target_handle)
          s.endpoint_compatible_sources;
  }

  -- `incoming_edge_types.setdefault(target.id, set()).add(source_handle.edge_type)`
  abbrev pub add_incoming :
      Option NodeHandleSpec
      → Option (Placed C)
      → Dict String (List EdgeType)
      → Dict String (List EdgeType)
  add_incoming (some h) (some p) incoming =
      insert p.node.id (add h.edge_type (types_at (lookup p.node.id incoming))) incoming
  add_incoming _ _ incoming = incoming

  record_incoming : Endpoints C → Scan → Scan
  record_incoming ep s = record s {
    incoming_edge_types = add_incoming ep.source_handle ep.target s.incoming_edge_types;
  }

abbrev pub by_key : String → Routed → Dict String ℕ
by_key source routed = elim (lookup source routed) [ none ↦ [] | some keys ↦ keys ]

unfoldable pub is_routed : String → String → Routed → Bool
is_routed source key routed = is_some (lookup key (by_key source routed))

-- `by_key[key] = index` in `routed.setdefault(source, {})`, for a key that is not there yet.
unfoldable pub claim : String → String → ℕ → Routed → Routed
claim source key index routed =
    if is_routed source key routed
    then routed
    else insert source (insert key index (by_key source routed)) routed

-- The key that an edge of a keyed type must carry: missing, or taken already.
abbrev pub own_key_issues : Issue → Issue → Option String → (String → Bool) → List Issue
own_key_issues required duplicate none taken = required ∷ []
own_key_issues required duplicate (some key) taken = when (taken key) duplicate

module _ (branch_taken dispatch_taken : String → Bool) where
  abbrev pub keyed_issues : ℕ → WorkflowEdge → EdgeType → List Issue
  keyed_issues index edge branch =
      when (is_some edge.dispatch_key)
        (edge_issue edge.id index dispatch_key_not_allowed "dispatch_key")
      ++ own_key_issues (edge_issue edge.id index branch_key_required "branch_key")
          (edge_issue edge.id index branch_key_duplicate "branch_key") edge.branch_key branch_taken
  keyed_issues index edge dispatch =
      when (is_some edge.branch_key) (edge_issue edge.id index branch_key_not_allowed "branch_key")
      ++ own_key_issues (edge_issue edge.id index dispatch_key_required "dispatch_key")
          (edge_issue edge.id index dispatch_key_duplicate "dispatch_key") edge.dispatch_key
          dispatch_taken
  keyed_issues index edge normal =
      when (is_some edge.branch_key) (edge_issue edge.id index branch_key_not_allowed "branch_key")
      ++ when (is_some edge.dispatch_key)
          (edge_issue edge.id index dispatch_key_not_allowed "dispatch_key")

  unfoldable pub key_issues : ℕ → WorkflowEdge → Option NodeHandleSpec → List Issue
  key_issues index edge none = []
  key_issues index edge (some h) = keyed_issues index edge h.edge_type

abbrev pub claim_key : String → Option String → ℕ → Routed → Routed
claim_key source none index routed = routed
claim_key source (some key) index routed = claim source key index routed

-- The claim of an edge whose source handle is of type `t`; edges of other types claim nothing.
abbrev pub claim_for :
    EdgeType → String → Option String → ℕ → Option NodeHandleSpec → Routed → Routed
claim_for t source key index none routed = routed
claim_for t source key index (some h) routed =
    if h.edge_type == t then claim_key source key index routed else routed

check_keys : ℕ → WorkflowEdge → Option NodeHandleSpec → Scan → Scan
check_keys index edge handle s = record s {
  issues =
      s.issues
      ++ key_issues (λ key. is_routed edge.source key s.routed_branches)
          (λ key. is_routed edge.source key s.routed_dispatches) index edge handle;
  routed_branches = claim_for branch edge.source edge.branch_key index handle s.routed_branches;
  routed_dispatches =
      claim_for dispatch edge.source edge.dispatch_key index handle s.routed_dispatches;
}

module _ {C : Type 0} where
  unfoldable pub scan_edge : NodeTable C → ℕ → WorkflowEdge → Scan → Scan
  unfolding check_endpoints check_duplicate record_incoming check_keys
  scan_edge table index edge s =
      let ep = endpoints table edge in
      check_keys index edge ep.source_handle
        (record_incoming ep (check_duplicate index edge (check_endpoints index edge ep s)))

  unfoldable pub scan_edges : NodeTable C → ℕ → List WorkflowEdge → Scan → Scan
  scan_edges table index [] s = s
  scan_edges table index (edge ∷ edges) s =
      scan_edges table (suc index) edges (scan_edge table index edge s)
