-- ===== src/Workflow/Admission/Admitted.antt =====
-- What a workflow document is that admission lets through.
use mathlib.Core.Option.{some-injective}
use deepagent_shell.Prelude.{
  subst, ℕ, suc, String, ◌≡◌, refl, true, false, List, [], ◌∷◌, ◌++◌, map, Option, none, some,
  arith, Dict, lookup, insert, contains, is_some, string_eq, All, append-eq-nil, lookup-insert,
  Distinct,
}
use deepagent_shell.Workflow.Contracts.{WorkflowNode, WorkflowEdge, WorkflowGraphDocument}
use deepagent_shell.Workflow.Catalog.{
  ConfigModel, WorkflowRole, role_eq, NodeTypeSpec, node_type_spec,
}
use deepagent_shell.Workflow.Issues
use deepagent_shell.Workflow.Issues.{Issue, when}
use deepagent_shell.Workflow.Admission.{
  field_issue, ConfigResult, valid, invalid, config_issues, normalized_node, role_issues,
  check_spec, note_index, normalize_nodes, edge_id_issues, layout_issues, admission_issues,
  admitted_if_clean, admit_workflow_document,
}
use deepagent_shell.Workflow.Topology.Table.{NodeTable, place_nodes}

abbrev NewTo : Dict String ℕ → List String → Type 0
NewTo indexes ids = All (λ id. is_some (lookup id indexes) ≡ false) ids

NewTo-note_index :
    (id : String) (i : ℕ) (indexes : Dict String ℕ) (ids : List String)
    → is_some (lookup id indexes) ≡ false
    → NewTo (note_index id i indexes) ids
    → NewTo indexes ids × (contains id ids ≡ false)
NewTo-note_index id i indexes [] new h = (tt, refl)
NewTo-note_index id i indexes (x ∷ ids) new h =
    let (rest, absent) = NewTo-note_index id i indexes ids new h.1 in
    (
      (ground (arith, lookup-insert id x i indexes, h.0, new), rest),
      ground (arith, lookup-insert id x i indexes, h.0, new, absent),
    )

edge_ids-Distinct :
    (index : ℕ) (indexes : Dict String ℕ) (edges : List WorkflowEdge)
    → edge_id_issues index indexes edges ≡ []
    → NewTo indexes (map (λ e. e.id) edges) × Distinct (map (λ e. e.id) edges)
unfolding edge_id_issues
edge_ids-Distinct index indexes [] h = (tt, tt)
edge_ids-Distinct index indexes (e ∷ edges) h =
    let new : is_some (lookup e.id indexes) ≡ false = ground arith in
    let (later, distinct) =
      edge_ids-Distinct (suc index) (note_index e.id index indexes) edges (ground arith) in
    let (rest, absent) = NewTo-note_index e.id index indexes (map (λ x. x.id) edges) new later in
    ((new, rest), (absent, distinct))

layout_known :
    (node_ids ids : List String)
    → layout_issues node_ids ids ≡ []
    → All (λ id. contains id node_ids ≡ true) ids
unfolding layout_issues
layout_known node_ids [] h = tt
layout_known node_ids (id ∷ ids) h = (ground arith, layout_known node_ids ids (ground arith))

abbrev pub RoleAllowed : Option WorkflowRole → NodeTypeSpec → Type 0
RoleAllowed none spec = Unit
RoleAllowed (some role) spec = contains role spec.workflow_roles ≡ true

module _ {C : Type 0} (validate_config : ConfigModel → C → ConfigResult C)
    (role : Option WorkflowRole) where
  -- The type of `n` is in the catalog and open to the role, and its config is what the type's config model
  -- makes of some config.
  pub record GoodNode (n : WorkflowNode C) : Type 0 where
    pub spec : NodeTypeSpec
    pub spec_found : node_type_spec n.type n.type_version ≡ some spec
    pub role_allowed : RoleAllowed role spec
    pub config_given : C
    pub config_valid : validate_config spec.config_model config_given ≡ valid n.config

role_issues-eq-nil :
    {C : Type 0} (role : Option WorkflowRole) (index : ℕ) (n : WorkflowNode C) (spec : NodeTypeSpec)
    → role_issues role index n spec ≡ []
    → RoleAllowed role spec
role_issues-eq-nil none index n spec h = tt
role_issues-eq-nil (some role) index n spec h = ground arith

module _ {C : Type 0} (validate_config : ConfigModel → C → ConfigResult C)
    (role : Option WorkflowRole) where
  with_result :
      (index : ℕ) (n : WorkflowNode C) (spec : NodeTypeSpec) (r : ConfigResult C)
      → node_type_spec n.type n.type_version ≡ some spec
      → validate_config spec.config_model n.config ≡ r
      → config_issues index n r ++ role_issues role index n spec ≡ []
      → GoodNode validate_config role (normalized_node n r)
  with_result index n spec (valid c) e v h = record {
    spec = spec;
    spec_found = e;
    role_allowed = role_issues-eq-nil role index n spec h;
    config_given = n.config;
    config_valid = v;
  }
  with_result index n spec (invalid error errors) e v h = cc

  good_node :
      (index : ℕ) (n : WorkflowNode C) (found : Option NodeTypeSpec)
      → node_type_spec n.type n.type_version ≡ found
      → (check_spec validate_config role index n found).0 ≡ []
      → GoodNode validate_config role (check_spec validate_config role index n found).1
  good_node index n none e h = cc
  good_node index n (some spec) e h =
      with_result index n spec (validate_config spec.config_model n.config) e refl h

  id-check_spec :
      (index : ℕ) (n : WorkflowNode C) (found : Option NodeTypeSpec)
      → (check_spec validate_config role index n found).1.id ≡ n.id
  id-check_spec index n none = refl
  id-check_spec index n (some spec) = ground arith

  nodes_good :
      (index : ℕ) (indexes : Dict String ℕ) (nodes : List (WorkflowNode C))
      → (normalize_nodes validate_config role index indexes nodes).0 ≡ []
      → All
          (GoodNode validate_config role)
          (normalize_nodes validate_config role index indexes nodes).1
        × NewTo indexes
            (map (λ n. n.id) (normalize_nodes validate_config role index indexes nodes).1)
        × Distinct (map (λ n. n.id) (normalize_nodes validate_config role index indexes nodes).1)
  unfolding normalize_nodes
  nodes_good index indexes [] h = (tt, tt, tt)
  nodes_good index indexes (n ∷ nodes) h =
      let found = node_type_spec n.type n.type_version in
      let (fresh_id, r) =
        append-eq-nil
          (when (is_some (lookup n.id indexes)) (field_issue index n Issues.node_id_duplicate "id"))
          _ h in
      let (own, more) = append-eq-nil (check_spec validate_config role index n found).0 _ r in
      let (good, later, distinct) =
        nodes_good (suc index) (note_index n.id index indexes) nodes more in
      let new : is_some (lookup n.id indexes) ≡ false = ground arith in
      let same_id = id-check_spec index n found in
      let (rest, absent) =
        NewTo-note_index n.id index indexes
          (map (λ x. x.id)
            (normalize_nodes validate_config role (suc index) (note_index n.id index indexes)
              nodes).1)
          new later in
      (
        (good_node index n found refl own, good),
        ((rw same_id new, rest)),
        ((rw same_id absent, distinct)),
      )

pub place_nodes-total :
    {C : Type 0} (validate_config : ConfigModel → C → ConfigResult C) (role : Option WorkflowRole)
    (index : ℕ) (nodes : List (WorkflowNode C)) (table : NodeTable C)
    → All (GoodNode validate_config role) nodes
    → (t : NodeTable C) × (place_nodes index nodes table ≡ some t)
unfolding place_nodes
place_nodes-total v role index [] table h = (table, refl)
place_nodes-total v role index (n ∷ nodes) table h =
    let (t, e) =
      place_nodes-total v role (suc index) nodes
        (insert n.id (record { node = n; spec = h.0.spec; index = index }) table) h.1 in
    (t, rw h.0.spec_found e)

-- The document that admission hands on.
pub record IsAdmitted {C : Type 0} (validate_config : ConfigModel → C → ConfigResult C)
    (role : Option WorkflowRole) (document : WorkflowGraphDocument C) : Type 0 where
  pub nodes_good : All (GoodNode validate_config role) document.definition.nodes
  pub node_ids_distinct : Distinct (map (λ n. n.id) document.definition.nodes)
  pub edge_ids_distinct : Distinct (map (λ e. e.id) document.definition.edges)
  pub layout_known :
      All
        (λ id. contains id (map (λ n. n.id) document.definition.nodes) ≡ true)
        document.layout_nodes

module _ {C : Type 0} (validate_config : ConfigModel → C → ConfigResult C)
    (role : Option WorkflowRole) where
  admission_clean :
      (document : WorkflowGraphDocument C)
      → (admission_issues validate_config role document).0 ≡ []
      → IsAdmitted validate_config role (admission_issues validate_config role document).1
  unfolding admission_issues
  admission_clean document h =
      let (of_nodes, r) =
        append-eq-nil (normalize_nodes validate_config role 0 [] document.definition.nodes).0 _ h in
      let (of_edges, of_layout) =
        append-eq-nil (edge_id_issues 0 [] document.definition.edges) _ r in
      let (good, new, distinct) =
        nodes_good validate_config role 0 [] document.definition.nodes of_nodes in
      record {
        nodes_good = good;
        node_ids_distinct = distinct;
        edge_ids_distinct = (edge_ids-Distinct 0 [] document.definition.edges of_edges).1;
        layout_known =
            layout_known
              (map (λ n. n.id)
                (normalize_nodes validate_config role 0 [] document.definition.nodes).1)
              document.layout_nodes of_layout;
      }

  admitted_if_clean-eq-some :
      (issues : List Issue) (d e : WorkflowGraphDocument C)
      → admitted_if_clean validate_config role issues d ≡ some e
      → (issues ≡ []) × (d ≡ e)
  admitted_if_clean-eq-some [] d e h = (refl, some-injective d e h)
  admitted_if_clean-eq-some (i ∷ is) d e h = cc

  -- An admitted document has nodes of the catalog's types, open to the role, with a config that the type's
  -- config model made; no two nodes and no two edges have one id, and its layout names only its nodes.
  pub admit-IsAdmitted :
      (document admitted : WorkflowGraphDocument C)
      → (admit_workflow_document validate_config role document).1 ≡ some admitted
      → IsAdmitted validate_config role admitted
  unfolding admit_workflow_document
  admit-IsAdmitted document admitted h =
      let (clean, same) = admitted_if_clean-eq-some _ _ admitted h in
      subst (IsAdmitted validate_config role) same (admission_clean document clean)
