-- ===== src/Workflow/Scripts/Complete.antt =====
-- command.py: a script that keeps to the rules has its result taken.
use deepagent_shell.Prelude.{
  ℕ, String, Bool, true, false, not, List, [], ◌∷◌, Option, some, Dict, insert, lookup, contains,
  any, All, Distinct, map, string_eq, ◌==◌, ◌≡◌, refl, sym, ◌∙◌, subst, ap, arith, inl, inr,
  Bool-cases,
}
use deepagent_shell.Runtime.State.{keys, write_all}
use deepagent_shell.Workflow.Scripts.{
  ok, channels, bounded_key, bounded_keys, Within, Distinct-is_unique,
}
use deepagent_shell.Workflow.Scripts.Values.{Value, detached_state}
use deepagent_shell.Workflow.Scripts.Delta.{state_delta, changed_entries, differs}
use deepagent_shell.Workflow.Scripts.Command.{
  Returned, fields, command_result, checked_result, run_command, model_validate,
}
use deepagent_shell.Workflow.Scripts.Accepted.{map-trim_allowed}

-- `set(values) - set(allowed)` is empty where every value is allowed.
pub all_known :
    (values allowed : List String)
    → All (λ value. contains value allowed ≡ true) values
    → any (λ value. not (contains value allowed)) values ≡ false
all_known [] allowed h = refl
all_known (value ∷ values) allowed h = ground (arith, h.0, all_known values allowed h.1)

module _ {V : Type 0} (P : String → Type 0) where
  All-insert :
      (k : String) (v : V) (state : Dict String V)
      → P k
      → All P (keys state)
      → All P (keys (insert k v state))
  unfolding insert
  All-insert k v [] p h = (p, tt)
  All-insert k v ((j, w) ∷ state) p h = elim (Bool-cases (j == k)) [
    | inl e ↦ rw e (h)
    | inr e ↦ rw e (h.0, All-insert k v state p h.1)
  ]

  pub All-write_all :
      (current update : Dict String V)
      → All P (keys current)
      → All P (keys update)
      → All P (keys (write_all current update))
  unfolding write_all
  All-write_all current [] h g = h
  All-write_all current ((k, v) ∷ update) h g =
      All-write_all (insert k v current) update (All-insert k v current g.0 h) g.1

  pub All-changed_entries :
      (same : V → V → Bool) (before after : Dict String V)
      → All P (keys after)
      → All P (keys (changed_entries same before after))
  unfolding changed_entries
  All-changed_entries same before [] h = tt
  All-changed_entries same before ((j, v) ∷ after) h =
      elim (Bool-cases (differs same (lookup j before) v)) [
        | inl e ↦ rw e (h.0, All-changed_entries same before after h.1)
        | inr e ↦ rw e (All-changed_entries same before after h.1)
      ]

bounded_keys-map :
    (trim : String → String) (most : ℕ) (texts : List String)
    → All (λ text. Within most (trim text)) texts
    → bounded_keys trim most texts ≡ some (map trim texts)
unfolding bounded_keys bounded_key
bounded_keys-map trim most [] h = refl
bounded_keys-map trim most (text ∷ texts) h =
    rw (bounded_keys-map trim most texts h.1) (ground (arith, h.0))

All-trim :
    (trim : String → String) (P : String → Type 0) (texts : List String)
    → All (λ text. P (trim text)) texts
    → All P (map trim texts)
All-trim trim P [] h = tt
All-trim trim P (text ∷ texts) h = (h.0, All-trim trim P texts h.1)

All-untrim :
    (trim : String → String) (P : String → Type 0) (texts : List String)
    → All P (map trim texts)
    → All (λ text. P (trim text)) texts
All-untrim trim P [] h = tt
All-untrim trim P (text ∷ texts) h = (h.0, All-untrim trim P texts h.1)

bounded_keys-trimmed :
    (trim : String → String) (most : ℕ) (texts : List String)
    → map trim texts ≡ texts
    → All (Within most) texts
    → bounded_keys trim most texts ≡ some texts
bounded_keys-trimmed trim most texts same h =
    bounded_keys-map trim most texts
      (All-untrim trim (Within most) texts (subst (λ ts. All (Within most) ts) (sym same) h))
    ∙ ap some same

module _ {A : Type 0} (trim : String → String) (same : Value A → Value A → Bool)
    (validate_update : Dict String (Value A) → Option (Dict String (Value A)))
    (command : Dict String (Value A) → Option (Returned (Value A) × Dict String (Value A)))
    (state : Dict String (Value A)) (allowed : List String)
    (trimmed : All (λ branch. trim branch ≡ branch) allowed) where
  -- A script returns branches and an update of channels, and leaves a state with channels only, all that
  -- it was given among them; trimmed, its branches are allowed, of 1 to 64 characters and distinct; and
  -- its update over what it changed is validated. Then `run_command` returns exactly the trimmed branches
  -- and the validated update.
  pub run_command-accepts :
      (activate : List String) (own after update : Dict String (Value A))
      → command (detached_state state) ≡ some (fields (some activate) (some own), after)
      → All (λ key. contains key channels ≡ true) (keys after)
      → All (λ key. contains key (keys after) ≡ true) (keys (detached_state state))
      → All (λ key. contains key channels ≡ true) (keys own)
      → validate_update (write_all (changed_entries same (detached_state state) after) own)
        ≡ some update
      → All (λ text. Within 64 (trim text)) activate
      → All (λ text. contains (trim text) allowed ≡ true) activate
      → Distinct (map trim activate)
      → run_command trim same validate_update command state allowed
        ≡ ok (record { activate = map trim activate; update = update })
  unfolding run_command checked_result model_validate command_result state_delta
  run_command-accepts activate own after update ran outside kept mine valid bounds known distinct =
      let inside = All-trim trim (λ b. contains b allowed ≡ true) activate known in
      let unique = Distinct-is_unique (map trim activate) distinct in
      let delta = changed_entries same (detached_state state) after in
      let supported = all_known (keys (write_all delta own)) channels (
        All-write_all (λ key. contains key channels ≡ true) delta own
          (All-changed_entries (λ key. contains key channels ≡ true) same (detached_state state)
            after outside)
          mine) in
      rw
        (
          ran,
          bounded_keys-map trim 64 activate bounds,
          unique,
          all_known (keys after) channels outside,
          all_known (keys (detached_state state)) (keys after) kept,
          supported,
          valid,
          all_known (map trim activate) allowed inside,
          bounded_keys-trimmed trim 64 (map trim activate)
              (map-trim_allowed trim allowed (map trim activate) trimmed inside)
              (All-trim trim (Within 64) activate bounds),
          unique,
        )
        (refl)
