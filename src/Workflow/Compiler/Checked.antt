-- ===== src/Workflow/Compiler/Checked.antt =====
-- `compile_workflow` as a whole: the compilation of a document behind the checks.
use mathlib.Core.Option.{some-injective}
use deepagent_shell.Prelude.{
  beq_refl, String, ◌≡◌, ◌≢◌, refl, sym, ◌∙◌, ap, Bool, true, List, [], ◌∷◌, Option, none, some,
  contains, string_eq, All, All-map,
}
use deepagent_shell.Workflow.Contracts.{WorkflowNode, WorkflowEdge, WorkflowGraphDocument}
use deepagent_shell.Workflow.Catalog.{
  ConfigModel, WorkflowRole, NodeTypeSpec, node_type_spec, RuntimeKind, graph_entry, graph_exit,
  agent_wrapper, command_node, send_dispatcher,
}
use deepagent_shell.Workflow.Issues.{Issue}
use deepagent_shell.Workflow.Admission.{
  ConfigResult, admit_workflow_document, admission_issues, admitted_if_clean,
}
use deepagent_shell.Workflow.Admission.Admitted.{GoodNode, admit-IsAdmitted, place_nodes-total}
use deepagent_shell.Workflow.Topology.Table.{NodeTable}
use deepagent_shell.Workflow.Topology.Table.Lookup.{IsPlaced, place_nodes-IsPlaced}
use deepagent_shell.Workflow.Topology.Validate.{validate_workflow_topology, has_kind, kind_eq}
use deepagent_shell.Workflow.Topology.Validate.Accepted.{accepted-GoodEdge}
use deepagent_shell.Workflow.Topology.Validate.Bound.{accepted-IsBound, IsBound}
use deepagent_shell.Workflow.Executable.Total.{validate_workflow_topology-total}
use deepagent_shell.Workflow.Compiler.{
  done, crashed, ◌>>=◌, compile_accepted, compile_workflow, admitted_or_fail, accepted_or_fail,
}
use deepagent_shell.Workflow.Compiler.Total.{
  Done, Supported, edges_fit, Given, HasParts, compile_accepted-Done,
}
use deepagent_shell.Workflow.Compiler.Uncrashed.{compile_accepted-ne-crashed}

module _ {C : Type 0} (validate_config : ConfigModel → C → ConfigResult C) (defers : C → Bool)
    (agents commands task_dispatchers : List String) (role : Option WorkflowRole) where
  all-Supported :
      (nodes : List (WorkflowNode C))
      → All (GoodNode validate_config role) nodes
      → All Supported nodes
  all-Supported nodes h = All-map (λ n g. (g.spec, g.spec_found)) nodes h

  after_checks :
      (nodes : List (WorkflowNode C)) (edges : List WorkflowEdge)
      → All (GoodNode validate_config role) nodes
      → (issues : List Issue)
      → validate_workflow_topology (some commands) (some task_dispatchers) nodes edges ≡ some issues
      → (accepted_or_fail validate_config defers agents commands task_dispatchers role (some issues)
          >>= λ _. compile_accepted defers agents commands task_dispatchers nodes edges)
        ≢ crashed
  after_checks nodes edges good [] e =
      let (table, placed, edges_good) =
        accepted-GoodEdge (some commands) (some task_dispatchers) nodes edges e in
      compile_accepted-ne-crashed defers agents commands task_dispatchers nodes edges table
        (all-Supported nodes good) placed (edges_fit table [] edges edges_good)
  after_checks nodes edges good (i ∷ issues) e = λ c. cc

  after_admission :
      (document : WorkflowGraphDocument C) (issues : List Issue)
      (admitted : Option (WorkflowGraphDocument C))
      → admitted ≡ (admit_workflow_document validate_config role document).1
      → (issues ≡ [] → admitted ≢ none)
      → (admitted_or_fail validate_config defers agents commands task_dispatchers role
            (issues, admitted)
          >>= λ d.
              accepted_or_fail validate_config defers agents commands task_dispatchers role (
                validate_workflow_topology
                  (some commands)
                  (some task_dispatchers)
                  d.definition.nodes
                  d.definition.edges)
              >>= λ _.
                  compile_accepted defers agents commands task_dispatchers d.definition.nodes
                    d.definition.edges)
        ≢ crashed
  after_admission document [] none e h = absurd (h refl refl)
  after_admission document (i ∷ issues) none e h = λ c. cc
  after_admission document issues (some d) e h =
      let good = (admit-IsAdmitted validate_config role document d (sym e)).nodes_good in
      let (table, placed) = place_nodes-total validate_config role 0 d.definition.nodes [] good in
      let (found, f) =
        validate_workflow_topology-total (some commands) (some task_dispatchers) d.definition.nodes
          d.definition.edges table placed in
      rw f (after_checks d.definition.nodes d.definition.edges good found f)

  clean-ne-none :
      (issues : List Issue) (d : WorkflowGraphDocument C)
      → issues ≡ []
      → admitted_if_clean validate_config role issues d ≢ none
  clean-ne-none [] d h = λ e. cc
  clean-ne-none (i ∷ issues) d h = cc

  -- Whatever the document, its compilation ends with calls on the builder or with an issue's code: no
  -- assertion fails, and no lookup of a node, a handle or an edge's type misses.
  pub compile_workflow-ne-crashed :
      (document : WorkflowGraphDocument C)
      → compile_workflow validate_config defers agents commands task_dispatchers role document
        ≢ crashed
  unfolding compile_workflow admit_workflow_document
  compile_workflow-ne-crashed document =
      let (issues, d) = admission_issues validate_config role document in
      after_admission document issues (admitted_if_clean validate_config role issues d) refl
        (clean-ne-none issues d)

  -- The agent of each agent node is there.
  abbrev pub HasAgent : WorkflowNode C → Type 0
  HasAgent n =
      (spec : NodeTypeSpec)
      → node_type_spec n.type n.type_version ≡ some spec
      → spec.runtime_kind ≡ agent_wrapper
      → contains n.id agents ≡ true

  Given-of :
      (table : NodeTable C) (edges : List WorkflowEdge) (n : WorkflowNode C) (spec : NodeTypeSpec)
      (kind : RuntimeKind)
      → spec.runtime_kind ≡ kind
      → node_type_spec n.type n.type_version ≡ some spec
      → has_kind table n.id kind ≡ true
      → (has_kind table n.id command_node ≡ true → contains n.id commands ≡ true)
      → (has_kind table n.id send_dispatcher ≡ true → IsBound table edges task_dispatchers n.id)
      → HasAgent n
      → Given agents commands task_dispatchers n.id kind
  Given-of table edges n spec command_node k e h c d a = c h
  Given-of table edges n spec send_dispatcher k e h c d a = (d h).0
  Given-of table edges n spec agent_wrapper k e h c d a = a spec e k
  Given-of table edges n spec graph_entry k e h c d a = tt
  Given-of table edges n spec graph_exit k e h c d a = tt

  has_kind_self :
      (table : NodeTable C) (n : WorkflowNode C) (spec : NodeTypeSpec)
      → node_type_spec n.type n.type_version ≡ some spec
      → IsPlaced table n
      → has_kind table n.id spec.runtime_kind ≡ true
  has_kind_self table n spec e p =
      let same : p.entry.spec ≡ spec = some-injective p.entry.spec spec (sym p.spec_found ∙ e) in
      rw (p.found, has_kind) (rw same (beq_refl spec.runtime_kind))

  has_parts :
      (table : NodeTable C) (edges : List WorkflowEdge) (nodes : List (WorkflowNode C))
      → All (GoodNode validate_config role) nodes
      → All (IsPlaced table) nodes
      → All (λ n. has_kind table n.id command_node ≡ true → contains n.id commands ≡ true) nodes
      → All
          (λ n.
            has_kind table n.id send_dispatcher ≡ true → IsBound table edges task_dispatchers n.id)
          nodes
      → All HasAgent nodes
      → All (HasParts agents commands task_dispatchers) nodes
  has_parts table edges [] g p c d a = tt
  has_parts table edges (n ∷ nodes) g p c d a =
      let spec = g.0.spec in
      (
        (
          spec,
          g.0.spec_found,
          Given-of table edges n spec spec.runtime_kind refl g.0.spec_found
              (has_kind_self table n spec g.0.spec_found p.0) c.0 d.0 a.0,
        ),
        has_parts table edges nodes g.1 p.1 c.1 d.1 a.1,
      )

  admitted_or_fail-some :
      (document d : WorkflowGraphDocument C)
      → (admit_workflow_document validate_config role document).1 ≡ some d
      → admitted_or_fail validate_config defers agents commands task_dispatchers role
          (admit_workflow_document validate_config role document)
        ≡ done d
  admitted_or_fail-some document d e =
      ap
        (λ a.
          admitted_or_fail validate_config defers agents commands task_dispatchers role
            ((admit_workflow_document validate_config role document).0, a))
        e

  -- A document that admission lets through, that the topology check has no issue with and whose agent nodes
  -- have their agents compiles to calls on the builder.
  pub compile_workflow-Done :
      (document admitted : WorkflowGraphDocument C)
      → (admit_workflow_document validate_config role document).1 ≡ some admitted
      → validate_workflow_topology
          (some commands)
          (some task_dispatchers)
          admitted.definition.nodes
          admitted.definition.edges
        ≡ some []
      → All HasAgent admitted.definition.nodes
      → Done
          (compile_workflow validate_config defers agents commands task_dispatchers role document)
  unfolding compile_workflow
  compile_workflow-Done document d e clean agents_given =
      let nodes = d.definition.nodes in
      let edges = d.definition.edges in
      let ok = admit-IsAdmitted validate_config role document d e in
      let (table, placed, edges_good) =
        accepted-GoodEdge (some commands) (some task_dispatchers) nodes edges clean in
      let (table', placed', c, b) = accepted-IsBound commands task_dispatchers nodes edges clean in
      let parts =
        has_parts table' edges nodes ok.nodes_good
          (place_nodes-IsPlaced 0 nodes [] table' ok.node_ids_distinct placed') c b agents_given in
      let (calls, eq) =
        compile_accepted-Done agents commands task_dispatchers defers nodes edges table parts placed
          (edges_fit table [] edges edges_good) in
      (calls, rw (admitted_or_fail-some document d e, clean) eq)
