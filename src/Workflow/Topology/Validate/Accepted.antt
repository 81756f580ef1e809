-- ===== src/Workflow/Topology/Validate/Accepted.antt =====
-- The nodes and edges of a workflow that `validate_workflow_topology` has no issue with.
use mathlib.Core.Option.{some-injective}
use deepagent_shell.Prelude.{
  String, ◌≡◌, ◌≢◌, refl, true, ◌&&◌, ◌||◌, List, [], ◌∷◌, Option, none, some, arith, contains, add,
  if◌then◌else◌, string_eq, option_eq, pair_eq, ◌==◌, any, All, Bool-cases, sym, ◌∙◌, contains-add,
  ap,
}
use text.Mathlib.TextEquality.{eq_iff}
use deepagent_shell.Workflow.Contracts.{WorkflowNode, WorkflowEdge}
use deepagent_shell.Workflow.Catalog.{edge_type_eq}
use deepagent_shell.Workflow.Issues.{IssueCode}
use deepagent_shell.Workflow.Topology.Table.{NodeTable, place_nodes}
use deepagent_shell.Workflow.Topology.Scan.{fresh}
use deepagent_shell.Workflow.Topology.Scan.Report.{fits_from}
use deepagent_shell.Workflow.Topology.Scan.Tracks.{scan_edges-eq-report, fresh-Tracks}
use deepagent_shell.Workflow.Topology.Reach.{reachable_from}
use deepagent_shell.Workflow.Topology.Reach.Paths.{Reach, reachable_from-iff-Reach}
use deepagent_shell.Workflow.Topology.Validate.{
  validate_workflow_topology, search_issues, ids_of_type, count_issues, start_issues,
  unreachable_issues, found_issues,
}
use deepagent_shell.Workflow.Topology.Validate.Edges.{GoodEdge, EachAfter, scan_edges-GoodEdge}
use deepagent_shell.Workflow.Topology.Validate.Parts.{validate-Parts}

ids_of_type_lem :
    {C : Type 0} (type : String) (nodes : List (WorkflowNode C)) (ids : List String) (id : String)
    → contains id (ids_of_type type nodes ids)
      ≡ (contains id ids || any (λ n. n.type == type && n.id == id) nodes)
unfolding ids_of_type
ids_of_type_lem type [] ids id = ground arith
ids_of_type_lem type (n ∷ nodes) ids id = ground (
  arith,
  ids_of_type_lem type nodes (if n.type == type then add n.id ids else ids) id,
  contains-add id n.id ids,
  eq_iff id n.id,
  eq_iff n.id id,
  Bool-cases (n.type == type),
)

-- A workflow without issues has only edges that fit: each joins an output handle of a node to an input
-- handle of a node that takes its type, carries the key that its type asks for and no other, and
-- repeats neither a connection nor, from its source, a branch or dispatch key of an edge before it.
pub accepted-GoodEdge :
    {C : Type 0} (commands task_dispatchers : Option (List String)) (nodes : List (WorkflowNode C))
    (edges : List WorkflowEdge)
    → validate_workflow_topology commands task_dispatchers nodes edges ≡ some []
    → (table : NodeTable C) × (place_nodes 0 nodes [] ≡ some table)
      × EachAfter (GoodEdge table) [] edges
accepted-GoodEdge commands task_dispatchers nodes edges h =
    let p = validate-Parts commands task_dispatchers nodes edges h in
    (p.table, p.placed, scan_edges-GoodEdge p.table edges p.scan_clean)

one_of_count :
    (required multiple : IssueCode) (ids : List String)
    → count_issues required multiple ids ≡ []
    → (s : String) × (ids ≡ s ∷ [])
unfolding count_issues
one_of_count required multiple [] h = cc
one_of_count required multiple (s ∷ []) h = (s, refl)
one_of_count required multiple (s ∷ s' ∷ ids) h = absurd (ground arith)

-- Exactly the node `s` is of type `type`.
abbrev pub IsOnlyOne : {C : Type 0} → String → List (WorkflowNode C) → String → Type 0
IsOnlyOne type nodes s = (id : String) → any (λ n. n.type == type && n.id == id) nodes ≡ (id == s)

only_one :
    {C : Type 0} (type : String) (nodes : List (WorkflowNode C)) (s : String)
    → ids_of_type type nodes [] ≡ s ∷ []
    → IsOnlyOne type nodes s
only_one type nodes s h id =
    sym (ids_of_type_lem type nodes [] id) ∙ ap (contains id) h ∙ ground arith

start_leaves :
    {C : Type 0} (table : NodeTable C) (compatible ids : List String) (s : String)
    → ids ≡ s ∷ []
    → start_issues table compatible ids ≡ []
    → contains s compatible ≡ true
unfolding start_issues
start_leaves table compatible ids s e h = ground arith

-- A workflow without issues has one Start node and one End node, and an edge that fits leaves the Start
-- node.
pub accepted-IsOnlyOne :
    {C : Type 0} (commands task_dispatchers : Option (List String)) (nodes : List (WorkflowNode C))
    (edges : List WorkflowEdge)
    → validate_workflow_topology commands task_dispatchers nodes edges ≡ some []
    → (table : NodeTable C) × (place_nodes 0 nodes [] ≡ some table)
      × (s : String) × IsOnlyOne "start" nodes s
      × (any (fits_from table s) edges ≡ true)
      × (e : String) × IsOnlyOne "end" nodes e
accepted-IsOnlyOne commands task_dispatchers nodes edges h =
    let p = validate-Parts commands task_dispatchers nodes edges h in
    let (s, is_s) = one_of_count _ _ _ p.start_counted in
    let (e, is_e) = one_of_count _ _ _ p.end_counted in
    let tracks = (scan_edges-eq-report 0 edges [] fresh (fresh-Tracks p.table)).1 in
    (
      p.table,
      p.placed,
      s,
      only_one "start" nodes s is_s,
      sym (tracks.compatible s) ∙ start_leaves p.table _ _ s is_s p.start_clean,
      e,
      only_one "end" nodes e is_e,
    )

reached :
    {C : Type 0} (table : NodeTable C) (reachable : List String) (R : String → Type 0)
    → ((n : String) → contains n reachable ≡ true → R n)
    → (nodes : List (WorkflowNode C)) → unreachable_issues table reachable nodes ≡ []
    → All (λ n. n.type ≢ "end" → R n.id) nodes
unfolding unreachable_issues
reached table reachable R f [] h = tt
reached table reachable R f (n ∷ nodes) h = (
  λ ne. f n.id (ground (arith, eq_iff n.type "end", ne)),
  reached table reachable R f nodes (ground arith),
)

module _ {C : Type 0} (table : NodeTable C) (nodes : List (WorkflowNode C))
    (edges : List WorkflowEdge) (start_ids : List String) where
  searched :
      (found : Option (List String))
      → reachable_from table edges start_ids ≡ found
      → found_issues table nodes found ≡ some []
      → All (λ n. n.type ≢ "end" → Reach table edges start_ids n.id) nodes
  searched none e h = cc
  searched (some found) e h =
      reached table found (Reach table edges start_ids)
        (λ n. (reachable_from-iff-Reach table edges start_ids found e n).0) nodes
        (some-injective _ _ h)

search_clean-Reach :
    {C : Type 0} (table : NodeTable C) (nodes : List (WorkflowNode C)) (edges : List WorkflowEdge)
    (start_ids : List String) (s : String)
    → start_ids ≡ s ∷ []
    → search_issues table nodes edges start_ids ≡ some []
    → All (λ n. n.type ≢ "end" → Reach table edges start_ids n.id) nodes
unfolding search_issues
search_clean-Reach table nodes edges [] s e h = cc
search_clean-Reach table nodes edges (x ∷ xs) s e h =
    searched table nodes edges (x ∷ xs) (reachable_from table edges (x ∷ xs)) refl h

-- In a workflow without issues a path of edges leads from the Start node to every node but the End node.
pub accepted-Reach :
    {C : Type 0} (commands task_dispatchers : Option (List String)) (nodes : List (WorkflowNode C))
    (edges : List WorkflowEdge)
    → validate_workflow_topology commands task_dispatchers nodes edges ≡ some []
    → (table : NodeTable C) × (place_nodes 0 nodes [] ≡ some table)
      × All (λ n. n.type ≢ "end" → Reach table edges (ids_of_type "start" nodes []) n.id) nodes
accepted-Reach commands task_dispatchers nodes edges h =
    let p = validate-Parts commands task_dispatchers nodes edges h in
    let (s, is_s) = one_of_count _ _ _ p.start_counted in
    (p.table, p.placed, search_clean-Reach p.table nodes edges _ s is_s p.search_clean)
