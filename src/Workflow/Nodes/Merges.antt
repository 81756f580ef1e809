-- ===== src/Workflow/Nodes/Merges.antt =====
-- compiler.py, `_make_agent_node`: what an agent's node leaves in the channels of its workflow. `merge_files`
-- is the reducer of the channel of files, a function of the library `deepagents`: an update's value
-- replaces that of its key, and `None` takes the key away.
use deepagent_shell.Prelude.{
  String, Bool, true, false, not, ◌&&◌, List, [], ◌∷◌, Option, none, some, Dict, lookup, contains,
  Distinct, keep, map, string_eq, if◌then◌else◌, ◌≡◌, refl, sym, ◌∙◌, subst, ap, arith, inl, inr,
  Bool-cases, beq-cases, is_some,
}
use text.Mathlib.TextEquality.{eq_iff}
use deepagent_shell.Runtime.State.{
  keys, or_else, or_empty, write_all, merge_shared_vars, lookup-write_all,
}
use deepagent_shell.Workflow.Scripts.Delta.{
  changed_entries, Agree, picked, lookup-changed_entries, changed_entries-merge,
}
use deepagent_shell.Workflow.Nodes.Agents.{
  deleted_keys, mapping_delta, NodeInput, AgentResult, InvocationArtifact, unless_empty, update_of,
}

write_unless_empty :
    {V : Type 0} (current delta : Dict String V)
    → merge_shared_vars (some current) (unless_empty delta) ≡ write_all current delta
unfolding merge_shared_vars write_all
write_unless_empty current [] = refl
write_unless_empty current (entry ∷ delta) = refl

module _ {T P M V : Type 0} (same : V → V → Bool) (null : V) where
  -- `==` is reflexive and the keys of the agent's variables are distinct. After the update of an agent's
  -- node is merged into the shared variables that the node was given, a key holds what the agent left
  -- there, up to `==`, or else what it held before.
  pub update_of-shared_vars :
      (reflexive : (v : V) → same v v ≡ true) (state : NodeInput T P V) (result : AgentResult M V)
      (artifact : InvocationArtifact T P M)
      → Distinct (keys (or_empty result.shared_vars))
      → (k : String)
      → Agree same
          (lookup k (
            merge_shared_vars
              (some (or_empty state.shared_vars))
              (update_of same null state result artifact).shared_vars))
          (or_else (lookup k (or_empty result.shared_vars)) (lookup k (or_empty state.shared_vars)))
  unfolding update_of mapping_delta
  update_of-shared_vars reflexive state result artifact distinct k =
      let before = or_empty state.shared_vars in
      let after = or_empty result.shared_vars in
      rw (write_unless_empty before (changed_entries same before after))
        (changed_entries-merge same reflexive before after distinct k)

-- A key's value under the deletions of some keys.
lookup-nulls :
    {V : Type 0} (null : V) (k : String) (names : List String)
    → lookup k (map (λ key. (key, null)) names) ≡ (if contains k names then some null else none)
unfolding lookup
lookup-nulls null k [] = refl
lookup-nulls null k (name ∷ names) =
    ground (arith, lookup-nulls null k names, eq_iff k name, eq_iff name k)

contains-keep :
    (p : String → Bool) (k : String) (names : List String)
    → contains k (keep p names) ≡ (contains k names && p k)
contains-keep p k [] = refl
contains-keep p k (name ∷ names) = elim (beq-cases k name) [
  | inl e ↦ ground (arith, contains-keep p k names, ap p e, (eq_iff k name).1 e)
  | inr n ↦ ground (arith, contains-keep p k names, n)
]

keep-Distinct : (p : String → Bool) (names : List String) → Distinct names → Distinct (keep p names)
keep-Distinct p [] d = tt
keep-Distinct p (name ∷ names) d = elim (Bool-cases (p name)) [
  | inl e ↦ rw e (ground (arith, contains-keep p name names, d.0), keep-Distinct p names d.1)
  | inr e ↦ rw e (keep-Distinct p names d.1)
]

keys-nulls :
    {V : Type 0} (null : V) (names : List String) → keys (map (λ key. (key, null)) names) ≡ names
keys-nulls null [] = refl
keys-nulls null (name ∷ names) = ap (λ rest. name ∷ rest) (keys-nulls null names)

contains-keys :
    {V : Type 0} (k : String) (m : Dict String V) → contains k (keys m) ≡ is_some (lookup k m)
unfolding lookup
contains-keys k [] = refl
contains-keys k ((j, v) ∷ m) = ground (arith, contains-keys k m, eq_iff k j, eq_iff j k)

-- The reducer of files: what an update says of a key goes before what the channel held.
abbrev pub overlay : {V : Type 0} → (V → Bool) → Option V → Option V → Option V
overlay is_null old none = old
overlay is_null old (some v) = if is_null v then none else some v

abbrev pub merged_files :
    {V : Type 0}
    → (Dict String V → Dict String V → Dict String V)
    → Dict String V
    → Option (Dict String V)
    → Dict String V
merged_files merge_files current none = current
merged_files merge_files current (some update) = merge_files current update

module _ {V : Type 0} (same : V → V → Bool) (null : V) where
  -- What the delta of files says of a key: a deletion, a change, or nothing.
  lookup-mapping_delta :
      (k : String) (before after : Dict String V)
      → Distinct (keys before)
      → Distinct (keys after)
      → lookup k (mapping_delta same null true before after)
        ≡ or_else
            (if is_some (lookup k before) && not (is_some (lookup k after))
              then some null
              else none)
            (picked same (lookup k before) (lookup k after))
  unfolding mapping_delta deleted_keys
  lookup-mapping_delta k before after db da =
      let gone = deleted_keys before after in
      let nulls : Dict String V = map (λ key. (key, null)) gone in
      let distinct : Distinct (keys nulls) =
        subst (λ ks. Distinct ks) (sym (keys-nulls null gone))
          (keep-Distinct (λ key. not (contains key (keys after))) (keys before) db) in
      lookup-write_all k (changed_entries same before after) nulls distinct
      ∙ rw
          (
            lookup-nulls null k gone,
            contains-keep (λ key. not (contains key (keys after))) k (keys before),
            contains-keys k before,
            contains-keys k after,
            lookup-changed_entries same k before after da,
          )
          (refl)

  overlay-Agree :
      (is_null : V → Bool) (reflexive : (v : V) → same v v ≡ true) (old new : Option V)
      → is_null null ≡ true
      → ((v : V) → new ≡ some v → is_null v ≡ false)
      → Agree same
          (overlay is_null old (
            or_else
              (if is_some old && not (is_some new) then some null else none)
              (picked same old new)))
          new
  overlay-Agree is_null reflexive none none n h = tt
  overlay-Agree is_null reflexive (some o) none n h = rw n (tt)
  overlay-Agree is_null reflexive none (some v) n h = rw (h v refl) (reflexive v)
  overlay-Agree is_null reflexive (some o) (some v) n h = elim (Bool-cases (same o v)) [
    | inl e ↦ rw e (e)
    | inr e ↦ rw (e, h v refl) (reflexive v)
  ]

merged_files-unless_empty :
    {V : Type 0} (is_null : V → Bool) (merge_files : Dict String V → Dict String V → Dict String V)
    (reduces : (k : String) (current update : Dict String V)
      → lookup k (merge_files current update)
        ≡ overlay is_null (lookup k current) (lookup k update))
    (k : String) (current delta : Dict String V)
    → lookup k (merged_files merge_files current (unless_empty delta))
      ≡ overlay is_null (lookup k current) (lookup k delta)
unfolding lookup
merged_files-unless_empty is_null merge_files reduces k current [] = refl
merged_files-unless_empty is_null merge_files reduces k current (entry ∷ delta) =
    reduces k current (entry ∷ delta)

module _ {T P M V : Type 0} (same : V → V → Bool) (null : V) (is_null : V → Bool)
    (merge_files : Dict String V → Dict String V → Dict String V)
    (reduces : (k : String) (current update : Dict String V)
      → lookup k (merge_files current update)
        ≡ overlay is_null (lookup k current) (lookup k update)) where
  -- `==` is reflexive, `None` is told from the files, and no key of the files stands twice. If the agent
  -- leaves files, then after the update of its node is merged into the files that the node was given, each
  -- path holds what the agent left there, up to `==`, and a path that the agent deleted holds nothing.
  pub update_of-files :
      (reflexive : (v : V) → same v v ≡ true) (state : NodeInput T P V) (result : AgentResult M V)
      (artifact : InvocationArtifact T P M) (after : Dict String V)
      → is_null null ≡ true
      → result.files ≡ some after
      → Distinct (keys (or_empty state.files))
      → Distinct (keys after)
      → ((path : String) (v : V) → lookup path after ≡ some v → is_null v ≡ false)
      → (path : String)
      → Agree same
          (lookup path (
            merged_files merge_files
              (or_empty state.files)
              (update_of same null state result artifact).files))
          (lookup path after)
  unfolding update_of
  update_of-files reflexive state result artifact after null_null left db da no_null path =
      let before = or_empty state.files in
      rw
        (
          left,
          merged_files-unless_empty is_null merge_files reduces path before
              (mapping_delta same null true before after),
          lookup-mapping_delta same null path before after db da,
        )
        (overlay-Agree same null is_null reflexive (lookup path before) (lookup path after)
          null_null (no_null path))
