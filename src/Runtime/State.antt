-- ===== src/Runtime/State.antt =====
-- server/src/agent_shell/runtime/state.py: the merges of the channels that parallel branches of a workflow
-- write. A channel without a value is `None`; the values are JSON, which the merges do not read.
pub mod Invocations
pub mod Newest
use deepagent_shell.Prelude.{
  String, ◌≡◌, refl, sym, ◌∙◌, ap, subst, ◌⊎◌, All, true, false, List, [], ◌∷◌, Option, none, some,
  Dict, lookup, insert, string_eq, ◌==◌, contains, Distinct, map, arith, inl, inr, beq-cases,
  lookup-insert, Bool-cases,
}
use text.Mathlib.TextEquality.{eq_iff}

module _ {V : Type 0} where
  -- `current or {}`
  abbrev pub or_empty : Option (Dict String V) → Dict String V
  or_empty none = []
  or_empty (some vars) = vars

  -- The writes of `{**current, **update}`.
  unfoldable pub write_all : Dict String V → Dict String V → Dict String V
  write_all current [] = current
  write_all current ((key, value) ∷ update) = write_all (insert key value current) update

  unfoldable pub merge_shared_vars : Option (Dict String V) → Option (Dict String V) → Dict String V
  merge_shared_vars current update = write_all (or_empty current) (or_empty update)

  unfoldable pub merge_background_tasks :
      Option (Dict String V) → Option (Dict String V) → Dict String V
  merge_background_tasks current update = write_all (or_empty current) (or_empty update)

  abbrev pub keys : Dict String V → List String
  keys vars = map (λ p. p.0) vars

  abbrev pub or_else : Option V → Option V → Option V
  or_else none other = other
  or_else (some v) other = some v

  pub lookup-none :
      (k : String) (vars : Dict String V) → contains k (keys vars) ≡ false → lookup k vars ≡ none
  unfolding lookup
  lookup-none k [] h = refl
  lookup-none k ((j, v) ∷ vars) h = ground (arith, h, eq_iff j k, eq_iff k j, lookup-none k vars)

  pub lookup-write_all :
      (k : String) (current update : Dict String V)
      → Distinct (keys update)
      → lookup k (write_all current update) ≡ or_else (lookup k update) (lookup k current)
  unfolding write_all lookup
  lookup-write_all k current [] h = refl
  lookup-write_all k current ((j, v) ∷ update) h =
      let ih = lookup-write_all k (insert j v current) update h.1 in
      elim (Bool-cases (j == k)) [
        | inl e ↦
            let absent : lookup k update ≡ none =
              subst (λ i. lookup i update ≡ none) ((eq_iff j k).0 e) (lookup-none j update h.0) in
            ih ∙ rw (absent, lookup-insert j k v current, e) (refl)
        | inr e ↦ ih ∙ rw (lookup-insert j k v current, e) (refl)
      ]
