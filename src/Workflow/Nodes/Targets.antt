-- ===== src/Workflow/Nodes/Targets.antt =====
-- compiler.py, `_make_command_node`: where a command leads.
use deepagent_shell.Prelude.{
  String, Bool, true, false, ◌||◌, List, [], ◌∷◌, ◌++◌, Option, some, Dict, lookup, contains, any,
  add, All, Distinct, string_eq, option_eq, ◌==◌, ◌≡◌, refl, ◌∙◌, arith, inl, inr, Bool-cases,
  beq_sym, any-snoc, contains-add,
}
use text.Mathlib.TextEquality.{eq_iff}
use deepagent_shell.Runtime.State.{keys}
use deepagent_shell.Workflow.Scripts.Values.{Value}
use deepagent_shell.Workflow.Scripts.{ok}
use deepagent_shell.Workflow.Scripts.Command.{CommandResult, Returned, run_command}
use deepagent_shell.Workflow.Scripts.Accepted.{run_command-activates}
use deepagent_shell.Workflow.Nodes.{done, NodeContext, invocation_metadata}
use deepagent_shell.Workflow.Nodes.Commands.{NodeCommand, activated_targets, call_command}

-- A key of a dictionary has a value.
pub lookup-key :
    {V : Type 0} (k : String) (m : Dict String V)
    → contains k (keys m) ≡ true
    → (v : V) × (lookup k m ≡ some v)
unfolding lookup
lookup-key k [] h = cc
lookup-key k ((j, v) ∷ m) h = elim (Bool-cases (j == k)) [
  | inl e ↦ (v, rw e (refl))
  | inr e ↦
      let (w, found) = lookup-key k m (ground (arith, h, e, eq_iff j k, eq_iff k j)) in
      (w, rw e (found))
]

Distinct-snoc :
    (a : String) (xs : List String) → contains a xs ≡ false → Distinct xs → Distinct (xs ++ a ∷ [])
Distinct-snoc a [] c d = (refl, tt)
Distinct-snoc a (x ∷ xs) c d = (
  ground (arith, any-snoc (λ y. x == y) xs a, d.0, c, beq_sym x a),
  Distinct-snoc a xs (ground (arith, c)) d.1,
)

Distinct-add : (a : String) (xs : List String) → Distinct xs → Distinct (add a xs)
Distinct-add a xs d = elim (Bool-cases (contains a xs)) [
  | inl e ↦ rw e (d)
  | inr e ↦ rw e (Distinct-snoc a xs e d)
]

-- The test of whether some branch leads to `t`.
abbrev pub leads_to : Dict String String → List String → String → Bool
leads_to targets branches t = any (λ branch. lookup branch targets == some t) branches

activated_targets_lem :
    (targets : Dict String String) (branches seen : List String)
    → All (λ branch. contains branch (keys targets) ≡ true) branches
    → Distinct seen
    → (out : List String) × (activated_targets targets branches seen ≡ some out)
      × Distinct out
      × ((t : String) → contains t out ≡ (contains t seen || leads_to targets branches t))
unfolding activated_targets
activated_targets_lem targets [] seen h d = (seen, refl, d, λ t. ground arith)
activated_targets_lem targets (branch ∷ branches) seen h d =
    let (target, found) = lookup-key branch targets h.0 in
    let (out, computed, distinct, members) =
      activated_targets_lem targets branches (add target seen) h.1 (Distinct-add target seen d) in
    (
      out,
      rw (found, activated_targets) (computed),
      distinct,
      λ t. members t ∙ rw found (ground (arith, contains-add t target seen, beq_sym t target)),
    )

module _ {A T : Type 0} (trim : String → String) (same : Value A → Value A → Bool)
    (validate_update : Dict String (Value A) → Option (Dict String (Value A)))
    (keeps_keys : (u v : Dict String (Value A))
      → validate_update u ≡ some v
      → (k : String) → contains k (keys v) ≡ true
      → contains k (keys u) ≡ true)
    (command : NodeContext
      → Dict String (Value A)
      → Option (Returned (Value A) × Dict String (Value A)))
    (node_id : String) (targets : Dict String String)
    (trimmed : All (λ branch. trim branch ≡ branch) (keys targets)) where
  -- The validation of an update adds no key, the keys of the targets are trimmed, and the runtime gives an
  -- invocation id that is not empty and its time. If `run_command` returns a result for the script, then
  -- the node returns a command, with no `KeyError`: it has the update of the result, and goes to the targets
  -- of the activated branches and to no other node, to each once.
  pub call_command-goto :
      (state : Dict String (Value A)) (id : String) (time : T) (r : CommandResult (Value A))
      → (id == "") ≡ false
      → run_command trim same validate_update
          (command (record { workflow_node_id = node_id; invocation_id = id }))
          state
          (keys targets)
        ≡ ok r
      → (c : NodeCommand (Value A) String) × (call_command trim same validate_update command node_id
            targets state
            (some (record { task_id = id; node_first_attempt_time = some time }))
          ≡ done c)
        × (c.update ≡ r.update)
        × Distinct c.goto
        × ((t : String) → contains t c.goto ≡ leads_to targets r.activate t)
  unfolding call_command invocation_metadata
  call_command-goto state id time r named ran =
      let context : NodeContext = record { workflow_node_id = node_id; invocation_id = id } in
      let (inside, _, _, _) =
        run_command-activates trim same validate_update keeps_keys (command context) state
          (keys targets) trimmed r ran in
      let (goto, computed, distinct, members) =
        activated_targets_lem targets r.activate [] inside tt in
      (
        record { update = r.update; goto = goto },
        rw (named, ran, computed) (refl),
        refl,
        distinct,
        members,
      )
