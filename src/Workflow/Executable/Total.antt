-- ===== src/Workflow/Executable/Total.antt =====
-- The report of a validation, and the reports on agents without their cache.
use deepagent_shell.Prelude.{
  Bool-cases, inl, inr, ℕ, suc, String, ◌≡◌, refl, ◌∙◌, ap, List, [], ◌∷◌, ◌++◌, map, Option, none,
  some, arith, lookup, if◌then◌else◌, string_eq, ◌==◌, lookup-insert,
}
use text.Mathlib.TextEquality.{eq_iff}
use deepagent_shell.Workflow.Contracts.{WorkflowNode, WorkflowEdge, WorkflowGraphDocument}
use deepagent_shell.Workflow.Catalog.{ConfigModel, WorkflowRole}
use deepagent_shell.Workflow.Issues.{Issue}
use deepagent_shell.Workflow.Admission.{ConfigResult, admit_workflow_document}
use deepagent_shell.Workflow.Admission.Admitted.{admit-IsAdmitted, place_nodes-total}
use deepagent_shell.Workflow.Topology.Table.{NodeTable, place_nodes}
use deepagent_shell.Workflow.Topology.Reach.Fuel.{reachable_from-total}
use deepagent_shell.Workflow.Topology.Validate.{
  validate_workflow_topology, search_issues, checked, joined, found_issues, ids_of_type,
}
use deepagent_shell.Workflow.Executable.{
  Reports, cached_report, moved_issue, agent_issues, with_agents, after_admission,
  validate_workflow_executable,
}

search_issues-total :
    {C : Type 0} (table : NodeTable C) (nodes : List (WorkflowNode C)) (edges : List WorkflowEdge)
    (start_ids : List String)
    → (issues : List Issue) × (search_issues table nodes edges start_ids ≡ some issues)
unfolding search_issues
search_issues-total table nodes edges [] = ([], refl)
search_issues-total table nodes edges (s ∷ rest) =
    let (found, e) = reachable_from-total table edges (s ∷ rest) in
    (_, ap (found_issues table nodes) e)

-- The topology check of nodes that have a place in the table ends with a list of issues.
pub validate_workflow_topology-total :
    {C : Type 0} (commands task_dispatchers : Option (List String)) (nodes : List (WorkflowNode C))
    (edges : List WorkflowEdge) (table : NodeTable C)
    → place_nodes 0 nodes [] ≡ some table
    → (issues : List Issue) × (validate_workflow_topology commands task_dispatchers nodes edges
        ≡ some issues)
unfolding validate_workflow_topology
validate_workflow_topology-total commands task_dispatchers nodes edges table e =
    let (issues, f) = search_issues-total table nodes edges (ids_of_type "start" nodes []) in
    (_, ap (checked commands task_dispatchers nodes edges) e ∙ ap (joined _) f)

module _ {C : Type 0} (validate_config : ConfigModel → C → ConfigResult C)
    (main_agent_id : C → String) (validate_main_agent : String → List Issue)
    (commands task_dispatchers : Option (List String)) (role : Option WorkflowRole) where
  executable_of :
      (document : WorkflowGraphDocument C) (issues : List Issue)
      (admitted : Option (WorkflowGraphDocument C))
      → (admit_workflow_document validate_config role document).1 ≡ admitted
      → (report : List Issue) × (after_admission validate_config main_agent_id validate_main_agent
            commands task_dispatchers role
            (issues, admitted)
          ≡ some report)
  executable_of document issues none e = (issues, refl)
  executable_of document issues (some d) e =
      let (table, placed) =
        place_nodes-total validate_config role 0 d.definition.nodes []
          (admit-IsAdmitted validate_config role document d e).nodes_good in
      let (found, f) =
        validate_workflow_topology-total commands task_dispatchers d.definition.nodes
          d.definition.edges table placed in
      (
        _,
        ap
            (with_agents validate_config main_agent_id validate_main_agent commands task_dispatchers
              role d)
            f,
      )

  -- Whatever the document, the validation of a workflow ends with a report: no assertion fails, and the
  -- search from the Start nodes ends.
  pub validate_workflow_executable-total :
      (document : WorkflowGraphDocument C)
      → (report : List Issue) × (validate_workflow_executable validate_config main_agent_id
            validate_main_agent commands task_dispatchers role document
          ≡ some report)
  unfolding validate_workflow_executable
  validate_workflow_executable-total document =
      let (issues, admitted) = admit_workflow_document validate_config role document in
      executable_of document issues admitted refl

-- The reports without the cache: each agent node asks the callback itself.
abbrev pub uncached_issues :
    {C : Type 0} → (C → String) → (String → List Issue) → ℕ → List (WorkflowNode C) → List Issue
uncached_issues main_agent_id validate_main_agent index [] = []
uncached_issues main_agent_id validate_main_agent index (node ∷ nodes) =
    let here =
      if node.type == "agent"
      then map (moved_issue main_agent_id validate_main_agent index node)
          (validate_main_agent (main_agent_id node.config))
      else [] in
    here ++ uncached_issues main_agent_id validate_main_agent (suc index) nodes

module _ {C : Type 0} (main_agent_id : C → String) (validate_main_agent : String → List Issue) where
  abbrev Cached : Reports → Type 0
  Cached reports =
      (id : String) (report : List Issue)
      → lookup id reports ≡ some report
      → report ≡ validate_main_agent id

  cached_report-Cached :
      (id : String) (found : Option (List Issue)) (reports : Reports)
      → lookup id reports ≡ found
      → Cached reports
      → ((cached_report main_agent_id validate_main_agent id found reports).0
          ≡ validate_main_agent id)
        × Cached (cached_report main_agent_id validate_main_agent id found reports).1
  cached_report-Cached id none reports e h = (
    refl,
    λ j report f.
        ground
          (arith, lookup-insert id j (validate_main_agent id) reports, eq_iff id j, h j report),
  )
  cached_report-Cached id (some report) reports e h = (h id report e, h)

  agent_issues-eq-uncached :
      (index : ℕ) (reports : Reports) (nodes : List (WorkflowNode C))
      → Cached reports
      → agent_issues main_agent_id validate_main_agent index reports nodes
        ≡ uncached_issues main_agent_id validate_main_agent index nodes
  unfolding agent_issues
  agent_issues-eq-uncached index reports [] h = refl
  agent_issues-eq-uncached index reports (n ∷ nodes) h =
      let id = main_agent_id n.config in
      let (same, kept) = cached_report-Cached id (lookup id reports) reports refl h in
      let reports' =
        (cached_report main_agent_id validate_main_agent id (lookup id reports) reports).1 in
      elim (Bool-cases (n.type == "agent")) [
        | inl is_agent ↦ rw is_agent (
            rw same (
              ap
                (λ l.
                  map (moved_issue main_agent_id validate_main_agent index n)
                    (validate_main_agent id)
                  ++ l)
                (agent_issues-eq-uncached (suc index) reports' nodes kept)))
        | inr other ↦ rw other (agent_issues-eq-uncached (suc index) reports nodes h)
      ]

  -- Asking for each agent's report once gives the issues that asking at every node would give.
  pub agent_issues-eq-uncached_issues :
      (index : ℕ) (nodes : List (WorkflowNode C))
      → agent_issues main_agent_id validate_main_agent index [] nodes
        ≡ uncached_issues main_agent_id validate_main_agent index nodes
  unfolding lookup
  agent_issues-eq-uncached_issues index nodes =
      agent_issues-eq-uncached index [] nodes (λ id report h. cc)
