-- ===== src/Workflow/Scripts/Delta.antt =====
-- command.py and task_dispatcher.py: `_state_delta`, the channels that a script changed in its copy of the
-- state. `same` is Python's `==` on the values, which the library does not look into.
use deepagent_shell.Prelude.{
  String, ◌≡◌, refl, ◌∙◌, ap, subst, beq_sym, beq-cases, or_false, Bool, true, false, not, [], ◌∷◌,
  Option, none, some, Dict, lookup, string_eq, if◌then◌else◌, ◌==◌, contains, Distinct, any, keep,
  arith, inl, inr, Bool-cases,
}
use text.Mathlib.TextEquality.{eq_iff}
use deepagent_shell.Runtime.State.{keys, or_else, write_all, lookup-none, lookup-write_all}
use deepagent_shell.Workflow.Scripts.{Checked, ok, failed, Cause, channels}

module _ {V : Type 0} (same : V → V → Bool) where
  -- `key not in before or before[key] != value`
  abbrev pub differs : Option V → V → Bool
  differs none value = true
  differs (some old) value = not (same old value)

  -- `{key: value for key, value in after.items() if …}`
  unfoldable pub changed_entries : Dict String V → Dict String V → Dict String V
  changed_entries before after = keep (λ entry. differs (lookup entry.0 before) entry.1) after

  unfoldable pub state_delta : Dict String V → Dict String V → Checked (Dict String V)
  state_delta before after =
      if any (λ key. not (contains key channels)) (keys after)
      then failed Cause.unsupported_change
      else (if any (λ key. not (contains key (keys after))) (keys before)
          then failed Cause.deleted_channel
          else ok (changed_entries before after))

  -- Two lookups that Python's `==` does not tell apart.
  abbrev pub Agree : Option V → Option V → Type 0
  Agree none none = Unit {0}
  Agree (some a) (some b) = same a b ≡ true
  Agree _ _ = ⊥

  abbrev pub picked : Option V → Option V → Option V
  picked old none = none
  picked old (some value) = if differs old value then some value else none

  keys-changed_entries :
      (k : String) (before after : Dict String V)
      → contains k (keys after) ≡ false
      → contains k (keys (changed_entries before after)) ≡ false
  unfolding changed_entries
  keys-changed_entries k before [] h = refl
  keys-changed_entries k before ((j, v) ∷ after) h =
      ground (arith, h, keys-changed_entries k before after)

  changed_entries-Distinct :
      (before after : Dict String V)
      → Distinct (keys after)
      → Distinct (keys (changed_entries before after))
  unfolding changed_entries
  changed_entries-Distinct before [] h = tt
  changed_entries-Distinct before ((j, v) ∷ after) h =
      elim (Bool-cases (differs (lookup j before) v)) [
        | inl e ↦
            rw e
              (keys-changed_entries j before after h.0, changed_entries-Distinct before after h.1)
        | inr e ↦ rw e (changed_entries-Distinct before after h.1)
      ]

  pub lookup-changed_entries :
      (k : String) (before after : Dict String V)
      → Distinct (keys after)
      → lookup k (changed_entries before after) ≡ picked (lookup k before) (lookup k after)
  unfolding changed_entries lookup
  lookup-changed_entries k before [] h = refl
  lookup-changed_entries k before ((j, v) ∷ after) h =
      let ih = lookup-changed_entries k before after h.1 in
      let later : (j ≡ k) → (lookup k after ≡ none) =
        λ e. subst (λ i. lookup i after ≡ none) e (lookup-none j after h.0) in
      let old : (j ≡ k) → (lookup j before ≡ lookup k before) = λ e. ap (λ i. lookup i before) e in
      elim (Bool-cases (j == k)) [
        | inl e ↦
            let t = (eq_iff j k).0 e in
            elim (Bool-cases (differs (lookup j before) v)) [
              | inl d ↦ rw (d, e, ← old t, d) (refl)
              | inr d ↦ rw (d, e, ← old t, d) (ih ∙ rw (later t) (refl))
            ]
        | inr e ↦ elim (Bool-cases (differs (lookup j before) v)) [
          | inl d ↦ rw (d, e) (ih)
          | inr d ↦ rw (d, e) (ih)
        ]
      ]

  Agree-merged :
      (reflexive : (v : V) → same v v ≡ true) (old new : Option V)
      → Agree (or_else (picked old new) old) (or_else new old)
  Agree-merged reflexive none none = tt
  Agree-merged reflexive (some o) none = reflexive o
  Agree-merged reflexive none (some v) = reflexive v
  Agree-merged reflexive (some o) (some v) = elim (Bool-cases (same o v)) [
    | inl e ↦ rw e (e)
    | inr e ↦ rw e (reflexive v)
  ]

  -- The changed entries, merged into what was there, overlay it with what is there now.
  pub changed_entries-merge :
      (reflexive : (v : V) → same v v ≡ true) (before after : Dict String V)
      → Distinct (keys after)
      → (k : String)
      → Agree
          (lookup k (write_all before (changed_entries before after)))
          (or_else (lookup k after) (lookup k before))
  changed_entries-merge reflexive before after d k =
      rw
        (
          lookup-write_all k before (changed_entries before after)
              (changed_entries-Distinct before after d),
          lookup-changed_entries k before after d,
        )
        (Agree-merged reflexive (lookup k before) (lookup k after))

  -- A delta that is taken holds the changed entries, and the script wrote only channels and deleted none.
  pub state_delta-ok :
      (before after delta : Dict String V)
      → state_delta before after ≡ ok delta
      → (changed_entries before after ≡ delta)
        × (any (λ key. not (contains key (keys after))) (keys before) ≡ false)
        × (any (λ key. not (contains key channels)) (keys after) ≡ false)
  unfolding state_delta
  state_delta-ok before after delta h =
      elim (Bool-cases (any (λ key. not (contains key channels)) (keys after))) [
        | inl e ↦ cc (rw e at h)
        | inr e ↦ elim (Bool-cases (any (λ key. not (contains key (keys after))) (keys before))) [
          | inl g ↦ cc (rw (e, g) at h)
          | inr g ↦ (cc (rw (e, g) at h), g, e)
        ]
      ]

  pub absent-keys :
      (k : String) (state : Dict String V) → lookup k state ≡ none → contains k (keys state) ≡ false
  unfolding lookup
  absent-keys k [] h = refl
  absent-keys k ((j, v) ∷ state) h = elim (Bool-cases (j == k)) [
    | inl e ↦ cc (rw e at h)
    | inr e ↦ let later = absent-keys k state (rw e at h) in ground (arith, e, later, beq_sym j k)
  ]

  kept_channels :
      (k : String) (before after : Dict String V)
      → any (λ key. not (contains key (keys after))) (keys before) ≡ false
      → lookup k after ≡ none
      → lookup k before ≡ none
  unfolding lookup
  kept_channels k [] after h e = refl
  kept_channels k ((j, v) ∷ before) after h e =
      let parts = or_false (not (contains j (keys after))) _ h in
      elim (beq-cases j k) [
        | inl t ↦
            let gone = absent-keys k after e in
            let here = subst (λ i. not (contains i (keys after)) ≡ false) t parts.0 in
            cc (rw gone at here)
        | inr t ↦ rw t (kept_channels k before after parts.1 e)
      ]

  or_else-kept : (old new : Option V) → (new ≡ none → old ≡ none) → or_else new old ≡ new
  or_else-kept old none h = h refl
  or_else-kept old (some v) h = refl

  -- For any state before and after a script whose keys are distinct, and where `==` is reflexive: if the
  -- delta is taken, then merged into the state before, it gives back for each key what the state after
  -- has, up to `==`.
  pub state_delta-merges :
      (reflexive : (v : V) → same v v ≡ true) (before after delta : Dict String V)
      → Distinct (keys after)
      → state_delta before after ≡ ok delta
      → (k : String) → Agree (lookup k (write_all before delta)) (lookup k after)
  state_delta-merges reflexive before after delta d h k =
      let (same_delta, kept, _) = state_delta-ok before after delta h in
      subst (λ m. Agree (lookup k (write_all before m)) (lookup k after)) same_delta
        (subst (λ o. Agree (lookup k (write_all before (changed_entries before after))) o)
          (or_else-kept (lookup k before) (lookup k after) (kept_channels k before after kept))
          (changed_entries-merge reflexive before after d k))
