-- ===== src/Workflow/Topology/Reach/Fuel.antt =====
-- The fuel of the search from the Start nodes, and the ids that have not been on its stack.
use deepagent_shell.Prelude.{
  ℕ, zero, suc, ◌+◌, ◌≤◌, ◌<◌, String, ◌≡◌, refl, ◌∙◌, true, false, List, [], ◌∷◌, ◌++◌, some,
  arith, Dict, lookup, contains, add, is_some, if◌then◌else◌, string_eq, length, any-snoc,
  contains-add, lookup-insert, map, ◌==◌, beq_refl, ap,
}
use text.Mathlib.TextEquality.{eq_iff}
use deepagent_shell.Workflow.Contracts.{WorkflowEdge}
use deepagent_shell.Workflow.Topology.Table.{NodeTable}
use deepagent_shell.Workflow.Topology.Reach.{
  Successors, targets_of, is_known, link, link_edges, Search, push, push_targets, explore,
  reachable_from,
}

-- How many of `ids` the set `reachable` does not hold yet.
unvisited : List String → List String → ℕ
unvisited reachable [] = 0
unvisited reachable (i ∷ ids) =
    if contains i reachable then unvisited reachable ids else suc (unvisited reachable ids)

unvisited-snoc-le :
    (r ids : List String) (t : String) → unvisited (r ++ t ∷ []) ids ≤ unvisited r ids
unfolding unvisited
unvisited-snoc-le r [] t = omega arith
unvisited-snoc-le r (i ∷ ids) t =
    ground (arith, any-snoc (λ x. i == x) r t, unvisited-snoc-le r ids t)

unvisited-snoc-lt :
    (r ids : List String) (t : String)
    → contains t ids ≡ true
    → contains t r ≡ false
    → unvisited (r ++ t ∷ []) ids < unvisited r ids
unfolding unvisited
unvisited-snoc-lt r [] t h k = cc
unvisited-snoc-lt r (i ∷ ids) t h k = ground (
  arith,
  any-snoc (λ x. i == x) r t,
  unvisited-snoc-le r ids t,
  unvisited-snoc-lt r ids t,
  eq_iff t i,
  eq_iff i t,
)

abbrev measure : List String → Search → ℕ
measure ids s = length s.pending + unvisited s.reachable ids

abbrev Within : List String → List String → Type 0
Within ids ts = (t : String) → contains t ts ≡ true → contains t ids ≡ true

measure-push :
    (ids : List String) (t : String) (s : Search)
    → contains t ids ≡ true
    → measure ids (push t s) ≤ measure ids s
unfolding push
measure-push ids t s h = ground (arith, unvisited-snoc-lt s.reachable ids t)

measure-push_targets :
    (ids ts : List String) (s : Search)
    → Within ids ts
    → measure ids (push_targets ts s) ≤ measure ids s
unfolding push_targets
measure-push_targets ids [] s h = omega arith
measure-push_targets ids (t ∷ ts) s h = omega (
  arith,
  measure-push ids t s (h t (rw (beq_refl t))),
  measure-push_targets ids ts (push t s) (λ x m. h x (ground arith)),
)

explore-ne-none :
    (ids : List String) (out : Successors) (within : (n : String) → Within ids (targets_of n out))
    (fuel : ℕ) (reachable pending : List String)
    → length pending + unvisited reachable ids ≤ fuel
    → (found : List String) × (explore fuel out reachable pending ≡ some found)
unfolding explore
explore-ne-none ids out within fuel reachable [] h = (reachable, refl)
explore-ne-none ids out within zero reachable (n ∷ pending) h = absurd (omega arith)
explore-ne-none ids out within (suc fuel) reachable (n ∷ pending) h =
    let s = push_targets (targets_of n out) (record { reachable = reachable; pending = pending }) in
    explore-ne-none ids out within fuel s.reachable s.pending (
      omega (
        arith,
        measure-push_targets ids (targets_of n out)
            (record { reachable = reachable; pending = pending }) (within n),
      ))

keys : {V : Type 0} → Dict String V → List String
keys m = map (λ p. p.0) m

contains-keys :
    {V : Type 0} (m : Dict String V) (k : String) → contains k (keys m) ≡ is_some (lookup k m)
unfolding keys lookup
contains-keys [] k = refl
contains-keys ((j, v) ∷ m) k = ground (arith, contains-keys m k, eq_iff j k, eq_iff k j)

unvisited-le : (r ids : List String) → unvisited r ids ≤ length ids
unfolding unvisited
unvisited-le r [] = omega arith
unvisited-le r (i ∷ ids) = ground (arith, unvisited-le r ids)

length-keys : {V : Type 0} (m : Dict String V) → length (keys m) ≡ length m
unfolding keys
length-keys [] = refl
length-keys (p ∷ m) = ap suc (length-keys m)

module _ {C : Type 0} (table : NodeTable C) where
  abbrev pub OnlyKnown : Successors → Type 0
  OnlyKnown out = (n t : String) → contains t (targets_of n out) ≡ true → is_known table t ≡ true

  link-OnlyKnown :
      (e : WorkflowEdge) (out : Successors) → OnlyKnown out → OnlyKnown (link table e out)
  unfolding link
  link-OnlyKnown e out h n t m = ground (
    arith,
    h n t,
    lookup-insert e.source n (add e.target (targets_of e.source out)) out,
    contains-add t e.target (targets_of e.source out),
    eq_iff t e.target,
    eq_iff e.source n,
    h e.source t,
  )

  link_edges-OnlyKnown :
      (edges : List WorkflowEdge) (out : Successors)
      → OnlyKnown out
      → OnlyKnown (link_edges table edges out)
  unfolding link_edges
  link_edges-OnlyKnown [] out h = h
  link_edges-OnlyKnown (e ∷ edges) out h =
      link_edges-OnlyKnown edges (link table e out) (link-OnlyKnown e out h)

  -- The search always ends with a set: its fuel does not run out.
  pub reachable_from-total :
      (edges : List WorkflowEdge) (start_ids : List String)
      → (found : List String) × (reachable_from table edges start_ids ≡ some found)
  unfolding reachable_from lookup
  reachable_from-total edges start_ids =
      explore-ne-none (keys table) (link_edges table edges [])
        (λ n t m. contains-keys table t ∙ link_edges-OnlyKnown edges [] (λ n' t' m'. cc) n t m)
        (length start_ids + length table) start_ids start_ids
        (omega (arith, unvisited-le start_ids (keys table), length-keys table))
