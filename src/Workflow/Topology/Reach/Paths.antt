-- ===== src/Workflow/Topology/Reach/Paths.antt =====
-- The nodes that the search from the Start nodes finds, and the paths of edges.
use deepagent_shell.Prelude.{
  ℕ, zero, suc, ◌+◌, String, ◌≡◌, refl, sym, ◌∙◌, Bool, true, false, ◌&&◌, ◌||◌, not, List, [], ◌∷◌,
  ◌++◌, some, arith, lookup, contains, add, any, string_eq, length, any-snoc, any-snoc_step,
  contains-add, Bool-cases, lookup-insert, ◌==◌, beq_refl, ap, append-nil, append_assoc, subst, inl,
  inr,
}
use mathlib.Core.Option.{some-injective}
use text.Mathlib.TextEquality.{eq_iff}
use deepagent_shell.Workflow.Contracts.{WorkflowEdge}
use deepagent_shell.Workflow.Topology.Table.{NodeTable}
use deepagent_shell.Workflow.Topology.Reach.{
  Successors, targets_of, is_known, link, link_edges, Search, push, push_targets, explore,
  reachable_from,
}

module _ {C : Type 0} (table : NodeTable C) where
  -- The edge goes from `m` to `n`, and both are nodes.
  abbrev pub joins : String → String → WorkflowEdge → Bool
  joins m n e = (e.source == m && e.target == n) && (is_known table m && is_known table n)

  abbrev pub linked : List WorkflowEdge → String → String → Bool
  linked edges m n = any (joins m n) edges

-- `n` is a Start node, or the target of an edge from such a node.
pub data Reach {C : Type 0} (table : NodeTable C) (edges : List WorkflowEdge)
    (start_ids : List String) : String → Type 0 where
  at_start : {n : String} → contains n start_ids ≡ true → Reach table edges start_ids n
  along :
      {m n : String}
      → Reach table edges start_ids m
      → linked table edges m n ≡ true
      → Reach table edges start_ids n

module _ {C : Type 0} (table : NodeTable C) where
  targets_of-link :
      (e : WorkflowEdge) (out : Successors) (m n : String)
      → contains n (targets_of m (link table e out))
        ≡ (contains n (targets_of m out) || joins table m n e)
  unfolding link
  targets_of-link e out m n = ground (
    arith,
    lookup-insert e.source m (add e.target (targets_of e.source out)) out,
    contains-add n e.target (targets_of e.source out),
    eq_iff n e.target,
    eq_iff e.target n,
    eq_iff e.source m,
  )

  targets_of-link_edges :
      (edges before : List WorkflowEdge) (out : Successors)
      → ((m n : String) → contains n (targets_of m out) ≡ linked table before m n)
      → (m n : String)
      → contains n (targets_of m (link_edges table edges out)) ≡ linked table (before ++ edges) m n
  unfolding link_edges
  targets_of-link_edges [] before out h m n = rw append-nil (h m n)
  targets_of-link_edges (e ∷ edges) before out h m n =
      targets_of-link_edges edges (before ++ e ∷ []) (link table e out)
        (λ m' n'.
          any-snoc_step (joins table m' n') before e (targets_of-link e out m' n') (h m' n'))
        m n
      ∙ ap (λ l. linked table l m n) (append_assoc before (e ∷ []) edges)

reachable-push :
    (x t : String) (s : Search)
    → contains x (push t s).reachable ≡ (contains x s.reachable || (x == t))
unfolding push
reachable-push x t s = ground (arith, any-snoc (λ y. x == y) s.reachable t, eq_iff x t)

pending-push :
    (x t : String) (s : Search)
    → contains x (push t s).pending
      ≡ (contains x s.pending || ((x == t) && not (contains t s.reachable)))
unfolding push
pending-push x t s = ground arith

reachable-push_targets :
    (x : String) (ts : List String) (s : Search)
    → contains x (push_targets ts s).reachable ≡ (contains x s.reachable || contains x ts)
unfolding push_targets
reachable-push_targets x [] s = ground arith
reachable-push_targets x (t ∷ ts) s =
    ground (arith, reachable-push_targets x ts (push t s), reachable-push x t s)

pending-push_targets :
    (x : String) (ts : List String) (s : Search)
    → contains x (push_targets ts s).pending
      ≡ (contains x s.pending || (contains x ts && not (contains x s.reachable)))
unfolding push_targets
pending-push_targets x [] s = ground arith
pending-push_targets x (t ∷ ts) s = ground (
  arith,
  pending-push_targets x ts (push t s),
  pending-push x t s,
  reachable-push x t s,
  eq_iff x t,
)

-- What the search keeps: everything found is reachable, and is on the stack or has its successors found.
record Searching (start_ids : List String) (out : Successors) (R : String → Type 0)
    (reachable pending : List String) : Type 0 where
  sound : (n : String) → contains n reachable ≡ true → R n
  seeded : (n : String) → contains n start_ids ≡ true → contains n reachable ≡ true
  closed :
      (m n : String)
      → contains m reachable ≡ true
      → contains m pending ≡ false
      → contains n (targets_of m out) ≡ true
      → contains n reachable ≡ true
  stacked : (n : String) → contains n pending ≡ true → contains n reachable ≡ true

module _ (start_ids : List String) (out : Successors) (R : String → Type 0)
    (extend : (m n : String) → R m → contains n (targets_of m out) ≡ true → R n) where
  push_targets-Searching :
      (reachable pending : List String) (p : String)
      → Searching start_ids out R reachable (p ∷ pending)
      → Searching start_ids out R
          (push_targets
            (targets_of p out)
            (record { reachable = reachable; pending = pending })).reachable
          (push_targets
            (targets_of p out)
            (record { reachable = reachable; pending = pending })).pending
  push_targets-Searching reachable pending p inv =
      let s : Search = record { reachable = reachable; pending = pending } in
      let ts = targets_of p out in
      let found = λ (x : String). reachable-push_targets x ts s in
      let stack = λ (x : String). pending-push_targets x ts s in
      record {
        sound = λ n h. elim (Bool-cases (contains n reachable)) [
          | inl old ↦ inv.sound n old
          | inr new ↦
              extend p n (inv.sound p (inv.stacked p (rw (beq_refl p)))) (ground (arith, found n))
        ];
        seeded = λ n h. ground (arith, found n, inv.seeded n h);
        closed = λ m n h k l. ground (arith, found n, found m, stack m, inv.closed m n, eq_iff m p);
        stacked = λ n h. ground (arith, found n, stack n, inv.stacked n);
      }

  explore-Searching :
      (fuel : ℕ) (reachable pending found : List String)
      → Searching start_ids out R reachable pending
      → explore fuel out reachable pending ≡ some found
      → Searching start_ids out R found []
  unfolding explore
  explore-Searching fuel reachable [] found inv h =
      subst (λ r. Searching start_ids out R r []) (some-injective reachable found h) inv
  explore-Searching zero reachable (p ∷ pending) found inv h = cc
  explore-Searching (suc fuel) reachable (p ∷ pending) found inv h =
      let s =
        push_targets (targets_of p out) (record { reachable = reachable; pending = pending }) in
      explore-Searching fuel s.reachable s.pending found
        (push_targets-Searching reachable pending p inv) h

module _ {C : Type 0} (table : NodeTable C) (edges : List WorkflowEdge)
    (start_ids : List String) where
  abbrev out : Successors
  out = link_edges table edges []

  linked_iff : (m n : String) → contains n (targets_of m out) ≡ linked table edges m n
  unfolding lookup
  linked_iff m n = targets_of-link_edges table edges [] [] (λ m' n'. refl) m n

  Searching-found :
      (found : List String)
      → reachable_from table edges start_ids ≡ some found
      → Searching start_ids out (Reach table edges start_ids) found []
  unfolding reachable_from
  Searching-found found h =
      explore-Searching start_ids out (Reach table edges start_ids)
        (λ m n r l. along r (sym (linked_iff m n) ∙ l)) (length start_ids + length table) start_ids
        start_ids found
        (record {
          sound = λ n k. at_start k;
          seeded = λ n k. k;
          closed = λ m n k l. cc;
          stacked = λ n k. k;
        })
        h

  Reach→contains :
      (found : List String)
      → Searching start_ids out (Reach table edges start_ids) found []
      → {n : String} → Reach table edges start_ids n
      → contains n found ≡ true
  Reach→contains found inv (at_start k) = inv.seeded _ k
  Reach→contains found inv (along {m = m} {n = n} r l) =
      inv.closed m n (Reach→contains found inv r) refl (linked_iff m n ∙ l)

-- The set that the search ends with holds exactly the nodes that a path of edges leads to from a Start
-- node.
pub reachable_from-iff-Reach :
    {C : Type 0} (table : NodeTable C) (edges : List WorkflowEdge) (start_ids found : List String)
    → reachable_from table edges start_ids ≡ some found
    → (n : String)
    → (contains n found ≡ true → Reach table edges start_ids n)
      × (Reach table edges start_ids n → contains n found ≡ true)
reachable_from-iff-Reach table edges start_ids found h n =
    let inv = Searching-found table edges start_ids found h in
    (inv.sound n, Reach→contains table edges start_ids found inv)
