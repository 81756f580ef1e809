-- ===== src/Workflow/Topology/Validate/Edges.antt =====
-- What the pass over the edges has no issue with: edges that fit, and repeat nothing before them.
use deepagent_shell.Prelude.{
  any_false→All, All-map, Option-cases, ◌∙◌, sym, inl, inr, ℕ, suc, String, ◌≡◌, ◌≢◌, refl, Bool,
  true, false, List, [], ◌∷◌, ◌++◌, Option, none, some, arith, lookup, is_some, string_eq,
  option_eq, pair_eq, ◌==◌, any, All, append-eq-nil, ne_of_beq_false,
}
use text.Mathlib.TextEquality.{eq_iff}
use deepagent_shell.Workflow.Contracts.{WorkflowEdge}
use deepagent_shell.Workflow.Catalog.{
  edge_type_beq_iff, EdgeType, normal, branch, dispatch, NodeHandleSpec, accepts, edge_type_eq,
}
use deepagent_shell.Workflow.Issues.{Issue, when}
use deepagent_shell.Workflow.Topology.Table.{
  Placed, NodeTable, endpoints, find_handle, source_handle_of, target_handle_of,
}
use deepagent_shell.Workflow.Topology.Scan.{
  keyed_issues, fresh, scan_edges, connection, endpoint_issues, key_issues,
}
use deepagent_shell.Workflow.Topology.Scan.Report.{
  edge_report, report, type_of_handle, uses_key, branch_before, dispatch_before,
}
use deepagent_shell.Workflow.Topology.Scan.Tracks.{scan_edges-eq-report, fresh-Tracks}

-- The keys that an edge carries are those that its type asks for.
abbrev pub KeysFit : EdgeType → WorkflowEdge → Type 0
KeysFit normal e = (e.branch_key ≡ none) × (e.dispatch_key ≡ none)
KeysFit branch e = (is_some e.branch_key ≡ true) × (e.dispatch_key ≡ none)
KeysFit dispatch e = (e.branch_key ≡ none) × (is_some e.dispatch_key ≡ true)

-- The edge joins handles of two nodes, and the target takes its type.
pub record EdgeFits {C : Type 0} (table : NodeTable C) (e : WorkflowEdge) : Type 0 where
  pub source : Placed C
  pub target : Placed C
  pub source_handle : NodeHandleSpec
  pub target_handle : NodeHandleSpec
  pub source_found : lookup e.source table ≡ some source
  pub target_found : lookup e.target table ≡ some target
  pub source_handle_found :
      find_handle source.spec.output_handles e.source_handle ≡ some source_handle
  pub target_handle_found :
      find_handle target.spec.input_handles e.target_handle ≡ some target_handle
  pub type_accepted : accepts target_handle source_handle.edge_type ≡ true
  pub keys_fit : KeysFit source_handle.edge_type e

-- Two edges of type `t` that leave one node under one key.
abbrev pub SameSlot :
    {C : Type 0}
    → NodeTable C
    → EdgeType
    → (WorkflowEdge → Option String)
    → WorkflowEdge
    → WorkflowEdge
    → Type 0
SameSlot table t key_of e e' =
    (type_of_handle (endpoints table e').source_handle ≡ some t)
    × (e'.source ≡ e.source)
    × (key_of e' ≡ key_of e)

-- An edge that fits, and repeats neither a connection nor a key of an edge before it.
pub record GoodEdge {C : Type 0} (table : NodeTable C) (before : List WorkflowEdge)
    (e : WorkflowEdge) : Type 0 where
  pub fits : EdgeFits table e
  pub new_connection : All (λ e'. connection e ≢ connection e') before
  pub one_branch_target :
      type_of_handle (endpoints table e).source_handle ≡ some branch
      → All (λ e'. ¬ SameSlot table branch (λ x. x.branch_key) e e') before
  pub one_dispatch_target :
      type_of_handle (endpoints table e).source_handle ≡ some dispatch
      → All (λ e'. ¬ SameSlot table dispatch (λ x. x.dispatch_key) e e') before

abbrev pub EachAfter :
    (List WorkflowEdge → WorkflowEdge → Type 0) → List WorkflowEdge → List WorkflowEdge → Type 0
EachAfter P before [] = Unit
EachAfter P before (e ∷ edges) = P before e × EachAfter P (before ++ e ∷ []) edges

keyed_issues-KeysFit :
    (f g : String → Bool) (i : ℕ) (e : WorkflowEdge) (t : EdgeType)
    → keyed_issues f g i e t ≡ []
    → KeysFit t e
keyed_issues-KeysFit f g i e normal h = ground arith
keyed_issues-KeysFit f g i e branch h = ground arith
keyed_issues-KeysFit f g i e dispatch h = ground arith

module _ {C : Type 0} (table : NodeTable C) (i : ℕ) (e : WorkflowEdge) (f g : String → Bool) where
  edge_fits :
      (ms mt : Option (Placed C)) (msh mth : Option NodeHandleSpec)
      → lookup e.source table ≡ ms
      → lookup e.target table ≡ mt
      → source_handle_of ms e.source_handle ≡ msh
      → target_handle_of mt e.target_handle ≡ mth
      → endpoint_issues i e
          (record { source = ms; target = mt; source_handle = msh; target_handle = mth })
        ≡ []
      → key_issues f g i e msh ≡ []
      → EdgeFits table e
  unfolding endpoint_issues key_issues
  edge_fits (some s) (some t) (some sh) (some th) es et esh eth h k = record {
    source = s;
    target = t;
    source_handle = sh;
    target_handle = th;
    source_found = es;
    target_found = et;
    source_handle_found = esh;
    target_handle_found = eth;
    type_accepted = ground arith;
    keys_fit = keyed_issues-KeysFit f g i e sh.edge_type k;
  }
  edge_fits (some s) (some t) (some sh) none es et esh eth h k = cc
  edge_fits (some s) (some t) none mth es et esh eth h k = cc
  edge_fits (some s) none msh mth es et esh eth h k = absurd (ground arith)
  edge_fits none mt msh mth es et esh eth h k = cc

when-eq-nil : (b : Bool) (i : Issue) → when b i ≡ [] → b ≡ false
when-eq-nil false i h = refl
when-eq-nil true i h = cc

module _ {C : Type 0} (table : NodeTable C) where
  not-SameSlot :
      (t : EdgeType) (key_of : WorkflowEdge → Option String) (e e' : WorkflowEdge) (k : String)
      → key_of e ≡ some k
      → uses_key table t key_of e.source k e' ≡ false
      → ¬ SameSlot table t key_of e e'
  not-SameSlot t key_of e e' k own h (is_t, same_source, same_key) =
      ground (arith, h, eq_iff e'.source e.source, eq_iff k k, edge_type_beq_iff t t, own)

  taken-none :
      (t : EdgeType) (key_of : WorkflowEdge → Option String) (before : List WorkflowEdge)
      (e : WorkflowEdge) (k : String)
      → key_of e ≡ some k
      → any (uses_key table t key_of e.source k) before ≡ false
      → All (λ e'. ¬ SameSlot table t key_of e e') before
  taken-none t key_of before e k own h =
      All-map (λ e'. not-SameSlot t key_of e e' k own) before
        (any_false→All (uses_key table t key_of e.source k) before h)

  one_branch_keyed :
      (i : ℕ) (e : WorkflowEdge) (before : List WorkflowEdge) (g : String → Bool) (t : EdgeType)
      → keyed_issues (branch_before table before e.source) g i e t ≡ []
      → some t ≡ some branch
      → All (λ e'. ¬ SameSlot table branch (λ x. x.branch_key) e e') before
  one_branch_keyed i e before g branch k is_branch = elim (Option-cases e.branch_key) [
    | inl missing ↦ absurd (ground arith)
    | inr (key, own) ↦ taken-none branch (λ x. x.branch_key) before e key own (ground arith)
  ]
  one_branch_keyed i e before g normal k is_branch = cc
  one_branch_keyed i e before g dispatch k is_branch = cc

  one_dispatch_keyed :
      (i : ℕ) (e : WorkflowEdge) (before : List WorkflowEdge) (f : String → Bool) (t : EdgeType)
      → keyed_issues f (dispatch_before table before e.source) i e t ≡ []
      → some t ≡ some dispatch
      → All (λ e'. ¬ SameSlot table dispatch (λ x. x.dispatch_key) e e') before
  one_dispatch_keyed i e before f dispatch k is_dispatch = elim (Option-cases e.dispatch_key) [
    | inl missing ↦ absurd (ground arith)
    | inr (key, own) ↦ taken-none dispatch (λ x. x.dispatch_key) before e key own (ground arith)
  ]
  one_dispatch_keyed i e before f normal k is_dispatch = cc
  one_dispatch_keyed i e before f branch k is_dispatch = cc

  one_branch :
      (i : ℕ) (e : WorkflowEdge) (before : List WorkflowEdge) (g : String → Bool)
      (h : Option NodeHandleSpec)
      → key_issues (branch_before table before e.source) g i e h ≡ []
      → type_of_handle h ≡ some branch
      → All (λ e'. ¬ SameSlot table branch (λ x. x.branch_key) e e') before
  unfolding key_issues
  one_branch i e before g none k is_branch = cc
  one_branch i e before g (some h) k is_branch =
      one_branch_keyed i e before g h.edge_type k is_branch

  one_dispatch :
      (i : ℕ) (e : WorkflowEdge) (before : List WorkflowEdge) (f : String → Bool)
      (h : Option NodeHandleSpec)
      → key_issues f (dispatch_before table before e.source) i e h ≡ []
      → type_of_handle h ≡ some dispatch
      → All (λ e'. ¬ SameSlot table dispatch (λ x. x.dispatch_key) e e') before
  unfolding key_issues
  one_dispatch i e before f none k is_dispatch = cc
  one_dispatch i e before f (some h) k is_dispatch =
      one_dispatch_keyed i e before f h.edge_type k is_dispatch

  edge_report-GoodEdge :
      (before : List WorkflowEdge) (i : ℕ) (e : WorkflowEdge)
      → edge_report table before i e ≡ []
      → GoodEdge table before e
  unfolding edge_report endpoints
  edge_report-GoodEdge before i e h =
      let ep = endpoints table e in
      let (ends, more) = append-eq-nil _ _ h in
      let (same, keys) = append-eq-nil _ _ more in
      record {
        fits =
            edge_fits table i e (branch_before table before e.source)
              (dispatch_before table before e.source) ep.source ep.target ep.source_handle
              ep.target_handle refl refl refl refl ends keys;
        new_connection =
            All-map (λ e'. ne_of_beq_false (connection e) (connection e')) before
              (any_false→All (λ e'. connection e == connection e') before (when-eq-nil _ _ same));
        one_branch_target = one_branch i e before _ ep.source_handle keys;
        one_dispatch_target = one_dispatch i e before _ ep.source_handle keys;
      }

  report-EachAfter :
      (before : List WorkflowEdge) (i : ℕ) (edges : List WorkflowEdge)
      → report table before i edges ≡ []
      → EachAfter (GoodEdge table) before edges
  unfolding report
  report-EachAfter before i [] h = tt
  report-EachAfter before i (e ∷ edges) h =
      let (now, later) = append-eq-nil _ _ h in
      (edge_report-GoodEdge before i e now, report-EachAfter (before ++ e ∷ []) (suc i) edges later)

  pub scan_edges-GoodEdge :
      (edges : List WorkflowEdge)
      → (scan_edges table 0 edges fresh).issues ≡ []
      → EachAfter (GoodEdge table) [] edges
  scan_edges-GoodEdge edges h =
      report-EachAfter [] 0 edges
        (sym (scan_edges-eq-report 0 edges [] fresh (fresh-Tracks table)).0 ∙ h)
