-- ===== src/Workflow/Topology/Table/Lookup.antt =====
-- The table of the nodes, where their ids are distinct.
use deepagent_shell.Prelude.{
  ℕ, suc, String, ◌≡◌, refl, ◌∙◌, false, List, [], ◌∷◌, map, some, arith, lookup, insert, contains,
  string_eq, ◌==◌, All, Distinct, lookup-insert, Option-cases, inl, inr, or_false,
}
use text.Mathlib.TextEquality.{eq_iff}
use deepagent_shell.Workflow.Contracts.{WorkflowNode}
use deepagent_shell.Workflow.Catalog.{node_type_spec, NodeTypeSpec}
use deepagent_shell.Workflow.Topology.Table.{Placed, NodeTable, place_nodes}

module _ {C : Type 0} where
  abbrev pub ids : List (WorkflowNode C) → List String
  ids nodes = map (λ n. n.id) nodes

  -- The table has the node under its id.
  pub record IsPlaced (table : NodeTable C) (n : WorkflowNode C) : Type 0 where
    pub entry : Placed C
    pub found : lookup n.id table ≡ some entry
    pub same_node : entry.node ≡ n
    pub spec_found : node_type_spec n.type n.type_version ≡ some entry.spec

  place_nodes-cons :
      (index : ℕ) (n : WorkflowNode C) (nodes : List (WorkflowNode C)) (t table : NodeTable C)
      → place_nodes index (n ∷ nodes) t ≡ some table
      → (spec : NodeTypeSpec) × (node_type_spec n.type n.type_version ≡ some spec)
        × (place_nodes
              (suc index)
              nodes
              (insert n.id (record { node = n; spec = spec; index = index }) t)
            ≡ some table)
  unfolding place_nodes
  place_nodes-cons index n nodes t table h =
      elim (Option-cases (node_type_spec n.type n.type_version)) [
        | inl missing ↦ absurd (ground arith)
        | inr (spec, found) ↦ (spec, found, rw found at h)
      ]

  lookup-place_nodes :
      (id : String) (index : ℕ) (nodes : List (WorkflowNode C)) (t table : NodeTable C)
      → contains id (ids nodes) ≡ false
      → place_nodes index nodes t ≡ some table
      → lookup id table ≡ lookup id t
  unfolding place_nodes
  lookup-place_nodes id index [] t table h e = ground arith
  lookup-place_nodes id index (n ∷ nodes) t table h e =
      let (spec, found, rest) = place_nodes-cons index n nodes t table (unfold place_nodes in e) in
      let (other, later) = or_false (id == n.id) (contains id (ids nodes)) h in
      lookup-place_nodes id (suc index) nodes
        (insert n.id (record { node = n; spec = spec; index = index }) t) table later rest
      ∙ ground (
        arith,
        lookup-insert n.id id (record { node = n; spec = spec; index = index }) t,
        eq_iff n.id id,
        eq_iff id n.id,
      )

  pub place_nodes-IsPlaced :
      (index : ℕ) (nodes : List (WorkflowNode C)) (t table : NodeTable C)
      → Distinct (ids nodes)
      → place_nodes index nodes t ≡ some table
      → All (IsPlaced table) nodes
  place_nodes-IsPlaced index [] t table d e = tt
  place_nodes-IsPlaced index (n ∷ nodes) t table d e =
      let (spec, found, rest) = place_nodes-cons index n nodes t table e in
      let p : Placed C = record { node = n; spec = spec; index = index } in
      (
        record {
          entry = p;
          found =
              lookup-place_nodes n.id (suc index) nodes (insert n.id p t) table d.0 rest
              ∙ ground (arith, lookup-insert n.id n.id p t, eq_iff n.id n.id);
          same_node = refl;
          spec_found = found;
        },
        place_nodes-IsPlaced (suc index) nodes (insert n.id p t) table d.1 rest,
      )
