-- ===== src/Workflow/Topology/Scan/Tracks.antt =====
-- The sets and dicts of the pass over the edges, after any prefix of the edges.
use mathlib.Core.Path.{ap₂, fun_ext}
use deepagent_shell.Prelude.{
  ℕ, suc, String, ◌≡◌, refl, sym, ◌∙◌, Bool, true, false, ◌&&◌, ◌||◌, List, [], ◌∷◌, ◌++◌,
  append_assoc, append-nil, Option, none, some, arith, lookup, contains, any, ◌==◌, string_eq,
  pair_eq, option_eq, lookup-insert, any-snoc_step, beq_sym, Dict, contains-add, ap, insert, add,
}
use text.Mathlib.TextEquality.{eq_iff}
use deepagent_shell.Workflow.Contracts.{WorkflowEdge}
use deepagent_shell.Workflow.Catalog.{EdgeType, branch, dispatch, edge_type_eq, NodeHandleSpec}
use deepagent_shell.Workflow.Issues.{when, edge_issue, edge_duplicate}
use deepagent_shell.Workflow.Topology.Table.{Placed, NodeTable, endpoints}
use deepagent_shell.Workflow.Topology.Scan.{
  Connection, connection, Routed, Scan, fresh, is_compatible, endpoint_issues, types_at, is_routed,
  by_key, claim, claim_for, add_compatible, add_incoming, key_issues, scan_edge, scan_edges,
}
use deepagent_shell.Workflow.Topology.Scan.Report.{
  type_of_handle, id_of, uses_key, enters, fits_from, branch_before, dispatch_before, edge_report,
  report,
}

is_routed-claim :
    (source key s k : String) (i : ℕ) (routed : Routed)
    → is_routed s k (claim source key i routed)
      ≡ (is_routed s k routed || (source == s && key == k))
unfolding is_routed claim
is_routed-claim source key s k i routed = ground (
  arith,
  eq_iff source s,
  eq_iff key k,
  lookup-insert source s (insert key i (by_key source routed)) routed,
  lookup-insert key k i (by_key source routed),
)

pub record Tracks {C : Type 0} (table : NodeTable C) (before : List WorkflowEdge) (s : Scan)
    : Type 0 where
  pub connections :
      (c : Connection) → contains c s.connections ≡ any (λ e. c == connection e) before
  pub branches :
      (source key : String)
      → is_routed source key s.routed_branches ≡ branch_before table before source key
  pub dispatches :
      (source key : String)
      → is_routed source key s.routed_dispatches ≡ dispatch_before table before source key
  pub incoming :
      (n : String) (t : EdgeType)
      → contains t (types_at (lookup n s.incoming_edge_types)) ≡ any (enters table n t) before
  pub compatible :
      (n : String) → contains n s.endpoint_compatible_sources ≡ any (fits_from table n) before

is_routed-claim_for :
    (t : EdgeType) (source : String) (key : Option String) (i : ℕ) (h : Option NodeHandleSpec)
    (routed : Routed) (s k : String)
    → is_routed s k (claim_for t source key i h routed)
      ≡ (is_routed s k routed || ((type_of_handle h == some t) && (source == s && (key == some k))))
is_routed-claim_for t source key i none routed s k = ground arith
is_routed-claim_for t source none i (some h) routed s k = ground arith
is_routed-claim_for t source (some key) i (some h) routed s k =
    ground (arith, is_routed-claim source key s k i routed)

contains-add_compatible :
    {C : Type 0} (p : Option (Placed C)) (b : Bool) (xs : List String) (n : String)
    → contains n (add_compatible p b xs) ≡ (contains n xs || ((id_of p == some n) && b))
contains-add_compatible none b xs n = ground arith
contains-add_compatible (some p) false xs n = ground arith
contains-add_compatible (some p) true xs n =
    ground (arith, contains-add n p.node.id xs, beq_sym n p.node.id)

contains-add_incoming :
    {C : Type 0} (h : Option NodeHandleSpec) (p : Option (Placed C))
    (m : Dict String (List EdgeType)) (n : String) (t : EdgeType)
    → contains t (types_at (lookup n (add_incoming h p m))) ≡ (
        contains t (types_at (lookup n m)) || ((id_of p == some n) && (type_of_handle h == some t)))
contains-add_incoming none p m n t = ground arith
contains-add_incoming (some h) none m n t = ground arith
contains-add_incoming (some h) (some p) m n t = ground (
  arith,
  lookup-insert p.node.id n (add h.edge_type (types_at (lookup p.node.id m))) m,
  contains-add t h.edge_type (types_at (lookup p.node.id m)),
  beq_sym t h.edge_type,
  eq_iff p.node.id n,
)

key_issues-ext :
    {f f' g g' : String → Bool} (i : ℕ) (e : WorkflowEdge) (h : Option NodeHandleSpec)
    → ((k : String) → f k ≡ f' k)
    → ((k : String) → g k ≡ g' k)
    → key_issues f g i e h ≡ key_issues f' g' i e h
key_issues-ext i e h p q = ap₂ (λ f g. key_issues f g i e h) (fun_ext p) (fun_ext q)

module _ {C : Type 0} {table : NodeTable C} {before : List WorkflowEdge} {s : Scan} (index : ℕ)
    (edge : WorkflowEdge) (tracks : Tracks table before s) where
  pub scan_edge-Tracks : Tracks table (before ++ edge ∷ []) (scan_edge table index edge s)
  unfolding scan_edge
  scan_edge-Tracks =
      let ep = endpoints table edge in
      record {
        connections = λ c.
            any-snoc_step (λ e. c == connection e) before edge
              (contains-add c (connection edge) s.connections) (tracks.connections c);
        branches = λ source key.
            any-snoc_step (uses_key table branch (λ e. e.branch_key) source key) before edge
              (is_routed-claim_for branch edge.source edge.branch_key index ep.source_handle
                s.routed_branches source key)
              (tracks.branches source key);
        dispatches = λ source key.
            any-snoc_step (uses_key table dispatch (λ e. e.dispatch_key) source key) before edge
              (is_routed-claim_for dispatch edge.source edge.dispatch_key index ep.source_handle
                s.routed_dispatches source key)
              (tracks.dispatches source key);
        incoming = λ n t.
            any-snoc_step (enters table n t) before edge
              (contains-add_incoming ep.source_handle ep.target s.incoming_edge_types n t)
              (tracks.incoming n t);
        compatible = λ n.
            any-snoc_step (fits_from table n) before edge
              (contains-add_compatible ep.source (is_compatible ep.source_handle ep.target_handle)
                s.endpoint_compatible_sources n)
              (tracks.compatible n);
      }

  pub issues-scan_edge :
      (scan_edge table index edge s).issues ≡ s.issues ++ edge_report table before index edge
  unfolding scan_edge edge_report
  issues-scan_edge =
      rw (append_assoc, append_assoc)
        (ap₂ (λ c d. s.issues ++ (endpoint_issues index edge (endpoints table edge) ++ (c ++ d)))
          (ap (λ b. when b (edge_issue edge.id index edge_duplicate ""))
            (tracks.connections (connection edge)))
          (key_issues-ext index edge (endpoints table edge).source_handle
            (tracks.branches edge.source) (tracks.dispatches edge.source)))

pub fresh-Tracks : {C : Type 0} (table : NodeTable C) → Tracks table [] fresh
unfolding is_routed lookup
fresh-Tracks table = record {
  connections = λ c. refl;
  branches = λ source key. refl;
  dispatches = λ source key. refl;
  incoming = λ n t. refl;
  compatible = λ n. refl;
}

-- The pass from any state that says what the edges before say adds to the issues what the report says of
-- the edges, and ends in a state that says what all the edges say.
pub scan_edges-eq-report :
    {C : Type 0} {table : NodeTable C} (index : ℕ) (edges before : List WorkflowEdge) (s : Scan)
    → Tracks table before s
    → ((scan_edges table index edges s).issues ≡ s.issues ++ report table before index edges)
      × Tracks table (before ++ edges) (scan_edges table index edges s)
unfolding scan_edges report
scan_edges-eq-report index [] before s tracks = (sym (append-nil s.issues), rw append-nil tracks)
scan_edges-eq-report {table = table} index (edge ∷ edges) before s tracks =
    let rest =
      scan_edges-eq-report (suc index) edges (before ++ edge ∷ []) (scan_edge table index edge s)
        (scan_edge-Tracks index edge tracks) in
    (
      rest.0
          ∙ ap (λ l. l ++ report table (before ++ edge ∷ []) (suc index) edges)
              (issues-scan_edge index edge tracks)
          ∙ append_assoc s.issues (edge_report table before index edge)
              (report table (before ++ edge ∷ []) (suc index) edges),
      rw append_assoc at rest.1,
    )

-- The issues of the pass over all the edges are the report's: those of each edge's own ends, with a
-- duplicate where an edge before it joins the same handles under the same keys, and the issues of its
-- keys judged by the keys that the edges before it used.
pub scan_edges-report :
    {C : Type 0} (table : NodeTable C) (edges : List WorkflowEdge)
    → (scan_edges table 0 edges fresh).issues ≡ report table [] 0 edges
scan_edges-report table edges = (scan_edges-eq-report 0 edges [] fresh (fresh-Tracks table)).0
