-- ===== src/Validation/Subagents.antt =====
-- validation/subagent_references.py: the subagents that are attached to one agent. A reference is its
-- `subagent_id`; `profiles` has the names of those that are resolved, and `casefold` is Python's
-- `str.casefold`, with which configuration/identity.py makes the key of a name.
-- An issue keeps its code and the index in its path. The parts of its message and of its owner are left out.
use deepagent_shell.Prelude.{
  ℕ, suc, String, false, List, [], ◌∷◌, ◌++◌, Option, none, some, Dict, lookup, contains, Distinct,
  All, string_eq, if◌then◌else◌, ◌==◌, ◌≡◌, ◌↔◌, refl, arith, inl, inr, Bool-cases, Option-cases,
  beq_sym, or_false, strip,
}

pub data ReferenceConflict : Type 0 where
  subagent_reference_duplicate subagent_name_duplicate : ReferenceConflict

pub record ReferenceIssue : Type 0 where
  pub code : ReferenceConflict
  pub index : ℕ

-- What an iteration gives: its issues, and the ids and names seen after it.
pub record Seen : Type 0 where
  pub issues : List ReferenceIssue
  pub ids : List String
  pub names : List String

-- The rest of an iteration, for an id that is new, by its profile's collision key.
abbrev pub check_name : ℕ → String → Option String → List String → List String → Seen
check_name index id none ids names = record { issues = []; ids = id ∷ ids; names = names }
check_name index id (some name) ids names =
    if contains name names
    then record {
      issues = record { code = subagent_name_duplicate; index = index } ∷ [];
      ids = id ∷ ids;
      names = names;
    }
    else record { issues = []; ids = id ∷ ids; names = name ∷ names }

-- `name_collision_key`
abbrev pub name_collision_key : (String → String) → String → String
name_collision_key casefold name = casefold (strip name)

abbrev pub key_of : (String → String) → Option String → Option String
key_of casefold none = none
key_of casefold (some name) = some (name_collision_key casefold name)

abbrev pub with_name : Option String → List String → List String
with_name none names = names
with_name (some name) names = name ∷ names

module _ (casefold : String → String) (profiles : Dict String String) where
  unfoldable pub check_reference : ℕ → String → List String → List String → Seen
  unfolding lookup
  check_reference index id ids names =
      if contains id ids
      then record {
        issues = record { code = subagent_reference_duplicate; index = index } ∷ [];
        ids = ids;
        names = names;
      }
      else check_name index id (key_of casefold (lookup id profiles)) ids names

  unfoldable pub reference_issues :
      ℕ → List String → List String → List String → List ReferenceIssue
  unfolding check_reference
  reference_issues index [] ids names = []
  reference_issues index (id ∷ references) ids names =
      let seen = check_reference index id ids names in
      seen.issues ++ reference_issues (suc index) references seen.ids seen.names

  -- `subagent_reference_issues`
  unfoldable pub subagent_reference_issues : List String → List ReferenceIssue
  unfolding reference_issues
  subagent_reference_issues references = reference_issues 0 references [] []

  -- The names under which the resolved subagents are called.
  unfoldable pub routing_names : List String → List String
  unfolding lookup
  routing_names [] = []
  routing_names (id ∷ references) =
      with_name (key_of casefold (lookup id profiles)) (routing_names references)

-- None of some texts is among others.
abbrev pub NewTo : List String → List String → Type 0
NewTo seen texts = All (λ text. contains text seen ≡ false) texts

NewTo-cons :
    (x : String) (seen texts : List String)
    → NewTo (x ∷ seen) texts ↔ ((contains x texts ≡ false) × NewTo seen texts)
NewTo-cons x seen [] = (λ h. (refl, tt), λ h. tt)
NewTo-cons x seen (text ∷ texts) =
    let (to, from) = NewTo-cons x seen texts in
    (
      λ h.
          let parts = or_false (text == x) (contains text seen) h.0 in
          let later = to h.1 in
          (ground (arith, parts.0, beq_sym x text, later.0), (parts.1, later.1)),
      λ h.
          let parts = or_false (x == text) (contains x texts) h.0 in
          (ground (arith, parts.0, beq_sym x text, h.1.0), from (parts.1, h.1.1)),
    )

NewTo-nil : (texts : List String) → NewTo [] texts
NewTo-nil [] = tt
NewTo-nil (text ∷ texts) = (refl, NewTo-nil texts)

module _ (casefold : String → String) (profiles : Dict String String) where
  abbrev names_of : List String → List String
  names_of references = routing_names casefold profiles references

  -- No reference or name is met before, nor twice.
  abbrev Apart : List String → List String → List String → Type 0
  Apart references ids names =
      NewTo ids references
      × Distinct references
      × NewTo names (names_of references)
      × Distinct (names_of references)

  reference_issues-Apart :
      (index : ℕ) (references ids names : List String)
      → reference_issues casefold profiles index references ids names ≡ []
      → Apart references ids names
  unfolding reference_issues check_reference routing_names
  reference_issues-Apart index [] ids names h = (tt, tt, tt, tt)
  reference_issues-Apart index (id ∷ references) ids names h = elim (Bool-cases (contains id ids)) [
    | inl e ↦ cc (rw e at h)
    | inr e ↦ elim (Option-cases (key_of casefold (lookup id profiles))) [
      | inl k ↦
          let rest =
            reference_issues-Apart (suc index) references (id ∷ ids) names (rw (e, k) at h) in
          let fresh = (NewTo-cons id ids references).0 rest.0 in
          rw k ((e, fresh.1), (fresh.0, rest.1), rest.2, rest.3)
      | inr (name, k) ↦ elim (Bool-cases (contains name names)) [
        | inl c ↦ cc (rw (e, k, c) at h)
        | inr c ↦
            let rest =
              reference_issues-Apart (suc index) references (id ∷ ids) (name ∷ names)
                (rw (e, k, c) at h) in
            let fresh = (NewTo-cons id ids references).0 rest.0 in
            let named = (NewTo-cons name names (names_of references)).0 rest.2 in
            rw k ((e, fresh.1), (fresh.0, rest.1), (c, named.1), (named.0, rest.3))
      ]
    ]
  ]

  reference_issues-nil :
      (index : ℕ) (references ids names : List String)
      → Apart references ids names
      → reference_issues casefold profiles index references ids names ≡ []
  unfolding reference_issues check_reference routing_names
  reference_issues-nil index [] ids names h = refl
  reference_issues-nil index (id ∷ references) ids names
        ((e, old), (lone, distinct), apart, named) =
      let fresh = (NewTo-cons id ids references).1 (lone, old) in
      elim (Option-cases (key_of casefold (lookup id profiles))) [
        | inl k ↦
            rw (e, k)
              (reference_issues-nil (suc index) references (id ∷ ids) names
                (fresh, distinct, rw k at apart, rw k at named))
        | inr (name, k) ↦
            let met = rw k at apart in
            let twice = rw k at named in
            let others = (NewTo-cons name names (names_of references)).1 (twice.0, met.1) in
            rw (e, k, met.0)
              (reference_issues-nil (suc index) references (id ∷ ids) (name ∷ names)
                (fresh, distinct, others, twice.1))
      ]

  -- No issue is reported of an agent's subagents exactly if no subagent is attached twice and the
  -- collision keys of the names of the resolved ones are distinct.
  pub subagent_reference_issues-Distinct :
      (references : List String)
      → (subagent_reference_issues casefold profiles references ≡ [])
        ↔ (Distinct references × Distinct (routing_names casefold profiles references))
  unfolding subagent_reference_issues
  subagent_reference_issues-Distinct references = (
    λ h. let apart = reference_issues-Apart 0 references [] [] h in (apart.1, apart.3),
    λ h.
        reference_issues-nil 0 references [] []
          (NewTo-nil references, h.0, NewTo-nil (names_of references), h.1),
  )
