-- ===== src/Workflow/Scripts/Accepted.antt =====
-- command.py and task_dispatcher.py: what is known of a result that `run_command` and
-- `run_task_dispatcher` return.
use deepagent_shell.Prelude.{
  String, Bool, true, false, not, List, [], ◌∷◌, Option, none, some, Dict, contains, any, All,
  Distinct, map, string_eq, ◌≡◌, refl, sym, ◌∙◌, subst, ap, arith, inl, inr, Bool-cases, beq-cases,
}
use deepagent_shell.Runtime.State.{keys, write_all}
use deepagent_shell.Workflow.Scripts.{
  ok, Cause, or_fail, channels, bounded_keys, is_unique, Within, >>=-ok, or_fail-ok, passed,
  bounded_keys-ok, is_unique-Distinct, none_unknown,
}
use deepagent_shell.Workflow.Scripts.Values.{Value, detached_state}
use deepagent_shell.Workflow.Scripts.Delta.{state_delta}
use deepagent_shell.Workflow.Scripts.Command.{
  CommandResult, Returned, command_result, checked_result, run_command, unique_branches,
  model_validate,
}

unique_branches-ok :
    {V : Type 0} (update : Dict String V) (o : Option (List String)) (r : CommandResult V)
    → unique_branches update o ≡ some r
    → (o ≡ some r.activate) × (is_unique r.activate ≡ true) × (update ≡ r.update)
unique_branches-ok update none r h = cc
unique_branches-ok update (some branches) r h = elim (Bool-cases (is_unique branches)) [
  | inl e ↦
      let same : record { activate = branches; update = update } ≡ r = cc (rw e at h) in
      subst
        (λ x.
          (some branches ≡ some x.activate) × (is_unique x.activate ≡ true) × (update ≡ x.update))
        same (refl, e, refl)
  | inr e ↦ cc (rw e at h)
]

-- A branch that is allowed is trimmed where all that are allowed are.
trim_allowed :
    (trim : String → String) (allowed : List String)
    → All (λ b. trim b ≡ b) allowed
    → (value : String) → contains value allowed ≡ true
    → trim value ≡ value
trim_allowed trim [] h value c = cc
trim_allowed trim (b ∷ allowed) h value c = elim (beq-cases value b) [
  | inl e ↦ rw e (h.0)
  | inr n ↦ trim_allowed trim allowed h.1 value (ground (arith, n, c))
]

pub map-trim_allowed :
    (trim : String → String) (allowed values : List String)
    → All (λ b. trim b ≡ b) allowed
    → All (λ value. contains value allowed ≡ true) values
    → map trim values ≡ values
map-trim_allowed trim allowed [] h c = refl
map-trim_allowed trim allowed (value ∷ values) h c =
    rw (trim_allowed trim allowed h value c.0, map-trim_allowed trim allowed values h c.1) (refl)

-- A key of some texts, all of which are allowed.
pub allowed_key :
    (k : String) (values allowed : List String)
    → All (λ value. contains value allowed ≡ true) values
    → contains k values ≡ true
    → contains k allowed ≡ true
allowed_key k [] allowed h c = cc
allowed_key k (value ∷ values) allowed h c = elim (beq-cases k value) [
  | inl e ↦ rw e (h.0)
  | inr n ↦ allowed_key k values allowed h.1 (ground (arith, n, c))
]

module _ {A : Type 0} (trim : String → String) (same : Value A → Value A → Bool)
    (validate_update : Dict String (Value A) → Option (Dict String (Value A))) where
  -- The guards that a command's result has passed.
  checked_result-ok :
      (allowed : List String) (before after : Dict String (Value A)) (value : Returned (Value A))
      (r : CommandResult (Value A))
      → checked_result trim same validate_update allowed before (value, after) ≡ ok r
      → (result : CommandResult (Value A)) × (mutation : Dict String (Value A)) × (model_validate
            trim value
          ≡ some result)
        × (state_delta same before after ≡ ok mutation)
        × (any (λ key. not (contains key channels)) (keys (write_all mutation result.update))
            ≡ false)
        × (validate_update (write_all mutation result.update) ≡ some r.update)
        × (any (λ branch. not (contains branch allowed)) result.activate ≡ false)
        × (bounded_keys trim 64 result.activate ≡ some r.activate)
        × (is_unique r.activate ≡ true)
  unfolding checked_result command_result
  checked_result-ok allowed before after value r h =
      let (result, valid, h1) =
        >>=-ok (or_fail Cause.invalid_result (model_validate trim value)) _ r h in
      let (mutation, taken, h2) = >>=-ok (state_delta same before after) _ r h1 in
      let (update, accepted, h3) = >>=-ok _ _ r h2 in
      let (supported, validated) = passed Cause.unsupported_update _ _ update accepted in
      let (known, last) = passed Cause.unknown_key _ _ r h3 in
      let (branches, unique, same_update) =
        unique_branches-ok update (bounded_keys trim 64 result.activate) r
          (or_fail-ok _ _ r last) in
      (
        result,
        mutation,
        or_fail-ok _ _ result valid,
        taken,
        supported,
        or_fail-ok _ _ update validated ∙ ap some same_update,
        known,
        branches,
        unique,
      )

  module _
      (keeps_keys : (u v : Dict String (Value A))
        → validate_update u ≡ some v
        → (k : String) → contains k (keys v) ≡ true
        → contains k (keys u) ≡ true)
      (command : Dict String (Value A) → Option (Returned (Value A) × Dict String (Value A)))
      (state : Dict String (Value A)) (allowed : List String)
      (trimmed : All (λ branch. trim branch ≡ branch) allowed) where
    -- The branches that may be activated are trimmed, and the validation of an update adds no key. Then
    -- whatever the script does, a result that `run_command` returns activates branches that are allowed,
    -- each once and of 1 to 64 characters, and updates nothing but channels.
    pub run_command-activates :
        (r : CommandResult (Value A))
        → run_command trim same validate_update command state allowed ≡ ok r
        → All (λ branch. contains branch allowed ≡ true) r.activate
          × Distinct r.activate
          × All (Within 64) r.activate
          × ((k : String) → contains k (keys r.update) ≡ true → contains k channels ≡ true)
    unfolding run_command
    run_command-activates r h =
        let (left, ran, rest) =
          >>=-ok (or_fail Cause.script_raised (command (detached_state state))) _ r h in
        let (result, mutation, _, _, supported, validated, known, branches, unique) =
          checked_result-ok allowed (detached_state state) left.1 left.0 r rest in
        let inside = none_unknown result.activate allowed known in
        let (kept, bounds) = bounded_keys-ok trim 64 result.activate r.activate branches in
        let same_keys = sym (map-trim_allowed trim allowed result.activate trimmed inside) ∙ kept in
        (
          subst (λ ks. All (λ branch. contains branch allowed ≡ true) ks) same_keys inside,
          is_unique-Distinct r.activate unique,
          bounds,
          λ k c.
              allowed_key k _ channels (none_unknown _ channels supported)
                (keeps_keys _ r.update validated k c),
        )
