-- ===== src/Runtime/State/Invocations.antt =====
-- runtime/state.py: `merge_agent_invocations`, with the slots of its records. `T` is the type of the time
-- of an invocation, a float that the merge carries along.
use mathlib.Core.Option.{some-injective}
use deepagent_shell.Prelude.{
  String, ◌≡◌, ◌↔◌, refl, sym, ◌∙◌, ap, subst, Bool, true, false, ◌&&◌, List, [], ◌∷◌, ◌++◌, Option,
  none, some, Dict, lookup, insert, string_eq, if◌then◌else◌, ◌==◌, Eq, is_some, insert-cases,
  lookup-insert, Option-cases, inl, inr, arith, Bool-cases, map,
}
use text.Mathlib.TextEquality.{eq_iff}
use deepagent_shell.Runtime.State.{or_else, or_empty}

pub record WorkflowTaskReference : Type 0 where
  pub dispatcher_node_id : String
  pub dispatcher_invocation_id : String
  pub task_id : String
  pub dispatch_key : String

-- A missing `workflow_node_id` is the empty string, which the code does not tell apart.
pub record AgentInvocationRecord (T : Type 0) : Type 0 where
  pub invocation_id : String
  pub workflow_id : String
  pub workflow_node_id : String
  pub agent_id : String
  pub invoked_at : T
  pub result_ref : String
  pub workflow_task : Option WorkflowTaskReference

-- The tuples of `_agent_invocation_slot`.
pub data Slot : Type 0 where
  task_slot : String → String → Slot
  node_slot invocation_slot : String → Slot

abbrev pub slot_beq : Slot → Slot → Bool
slot_beq (task_slot a b) (task_slot c d) = a == c && b == d
slot_beq (node_slot a) (node_slot b) = a == b
slot_beq (invocation_slot a) (invocation_slot b) = a == b
slot_beq _ _ = false

pub slot_beq_iff : (a b : Slot) → (slot_beq a b ≡ true) ↔ (a ≡ b)
slot_beq_iff (task_slot a b) (task_slot c d) =
    (λ h. ground (arith, eq_iff a c, eq_iff b d), λ h. ground (arith, eq_iff a c, eq_iff b d))
slot_beq_iff (node_slot a) (node_slot b) =
    (λ h. ground (arith, eq_iff a b), λ h. ground (arith, eq_iff a b))
slot_beq_iff (invocation_slot a) (invocation_slot b) =
    (λ h. ground (arith, eq_iff a b), λ h. ground (arith, eq_iff a b))
slot_beq_iff (task_slot a b) (node_slot c) = (λ h. cc, λ h. cc)
slot_beq_iff (task_slot a b) (invocation_slot c) = (λ h. cc, λ h. cc)
slot_beq_iff (node_slot a) (task_slot c d) = (λ h. cc, λ h. cc)
slot_beq_iff (node_slot a) (invocation_slot c) = (λ h. cc, λ h. cc)
slot_beq_iff (invocation_slot a) (task_slot c d) = (λ h. cc, λ h. cc)
slot_beq_iff (invocation_slot a) (node_slot c) = (λ h. cc, λ h. cc)

instance abbrev pub slot_eq : Eq Slot
slot_eq = record { beq = slot_beq; beq_iff = slot_beq_iff }

module _ {T : Type 0} where
  abbrev pub slot_of : Option WorkflowTaskReference → AgentInvocationRecord T → Slot
  slot_of (some task) r = task_slot task.dispatcher_node_id task.task_id
  slot_of none r =
      if r.workflow_node_id == ""
      then invocation_slot r.invocation_id
      else node_slot r.workflow_node_id

  -- `_agent_invocation_slot`
  abbrev pub agent_invocation_slot : AgentInvocationRecord T → Slot
  agent_invocation_slot r = slot_of r.workflow_task r

  -- The loop: `by_slot` and `order`.
  unfoldable pub fill_slots :
      List (AgentInvocationRecord T)
      → Dict Slot (AgentInvocationRecord T)
      → List Slot
      → Dict Slot (AgentInvocationRecord T) × List Slot
  fill_slots [] by_slot order = (by_slot, order)
  fill_slots (r ∷ records) by_slot order =
      let slot = agent_invocation_slot r in
      fill_slots records (insert slot r by_slot)
        (if is_some (lookup slot by_slot) then order else order ++ slot ∷ [])

  abbrev pub put_record :
      Option (AgentInvocationRecord T)
      → Dict String (AgentInvocationRecord T)
      → Dict String (AgentInvocationRecord T)
  put_record none out = out
  put_record (some r) out = insert r.invocation_id r out

  -- The dict that is returned. Each slot of `order` is a key of `by_slot`.
  unfoldable pub by_id :
      Dict Slot (AgentInvocationRecord T)
      → List Slot
      → Dict String (AgentInvocationRecord T)
      → Dict String (AgentInvocationRecord T)
  by_id by_slot [] out = out
  by_id by_slot (slot ∷ order) out = by_id by_slot order (put_record (lookup slot by_slot) out)

  -- `[*(current or {}).values(), *(update or {}).values()]`
  abbrev pub values_of :
      Option (Dict String (AgentInvocationRecord T))
      → Option (Dict String (AgentInvocationRecord T))
      → List (AgentInvocationRecord T)
  values_of current update = map (λ p. p.1) (or_empty current) ++ map (λ p. p.1) (or_empty update)

  unfoldable pub merge_agent_invocations :
      Option (Dict String (AgentInvocationRecord T))
      → Option (Dict String (AgentInvocationRecord T))
      → Dict String (AgentInvocationRecord T)
  merge_agent_invocations current update =
      let (by_slot, order) = fill_slots (values_of current update) [] [] in by_id by_slot order []

  -- The last record of a slot.
  abbrev pub last_of : Slot → List (AgentInvocationRecord T) → Option (AgentInvocationRecord T)
  last_of slot [] = none
  last_of slot (r ∷ records) =
      or_else (last_of slot records) (if agent_invocation_slot r == slot then some r else none)

  or_else_assoc :
      (a b c : Option (AgentInvocationRecord T)) → or_else a (or_else b c) ≡ or_else (or_else a b) c
  or_else_assoc none b c = refl
  or_else_assoc (some a) b c = refl

  here_or_else :
      (here slot : Slot) (r : AgentInvocationRecord T)
      (by_slot : Dict Slot (AgentInvocationRecord T))
      → lookup slot (insert here r by_slot)
        ≡ or_else (if here == slot then some r else none) (lookup slot by_slot)
  here_or_else here slot r by_slot = elim (Bool-cases (here == slot)) [
    | inl e ↦ rw (lookup-insert here slot r by_slot, e) (refl)
    | inr e ↦ rw (lookup-insert here slot r by_slot, e) (refl)
  ]

  pub fill_slots-last_of :
      (slot : Slot) (records : List (AgentInvocationRecord T))
      (by_slot : Dict Slot (AgentInvocationRecord T)) (order : List Slot)
      → lookup slot (fill_slots records by_slot order).0
        ≡ or_else (last_of slot records) (lookup slot by_slot)
  unfolding fill_slots
  fill_slots-last_of slot [] by_slot order = refl
  fill_slots-last_of slot (r ∷ records) by_slot order =
      let here = agent_invocation_slot r in
      fill_slots-last_of slot records (insert here r by_slot) _
      ∙ ap (λ x. or_else (last_of slot records) x) (here_or_else here slot r by_slot)
      ∙ or_else_assoc (last_of slot records) (if here == slot then some r else none)
          (lookup slot by_slot)

  chosen_slot :
      (x r : AgentInvocationRecord T) (slot : Slot) (b : Bool)
      → (agent_invocation_slot x == slot) ≡ b
      → (if b then some x else none) ≡ some r
      → agent_invocation_slot r ≡ slot
  chosen_slot x r slot true e h =
      ap agent_invocation_slot (sym (some-injective x r h))
      ∙ (slot_beq_iff (agent_invocation_slot x) slot).0 e
  chosen_slot x r slot false e h = cc

  first_slot :
      (x r : AgentInvocationRecord T) (slot : Slot)
      → (if agent_invocation_slot x == slot then some x else none) ≡ some r
      → agent_invocation_slot r ≡ slot
  first_slot x r slot h = chosen_slot x r slot (agent_invocation_slot x == slot) refl h

  last_of-slot :
      (slot : Slot) (records : List (AgentInvocationRecord T)) (r : AgentInvocationRecord T)
      → last_of slot records ≡ some r
      → agent_invocation_slot r ≡ slot
  last_of-slot slot [] r h = cc
  last_of-slot slot (x ∷ records) r h = elim (Option-cases (last_of slot records)) [
    | inl e ↦ first_slot x r slot (cc (e, h))
    | inr (y, e) ↦ last_of-slot slot records r (cc (e, h))
  ]

  -- Every record of the dict is the latest of its slot.
  IsLatest : List (AgentInvocationRecord T) → Dict String (AgentInvocationRecord T) → Type 0
  IsLatest records out =
      (id : String) (r : AgentInvocationRecord T)
      → lookup id out ≡ some r
      → last_of (agent_invocation_slot r) records ≡ some r

  put_record-IsLatest :
      (records : List (AgentInvocationRecord T)) (found : Option (AgentInvocationRecord T))
      (out : Dict String (AgentInvocationRecord T))
      → ((r : AgentInvocationRecord T)
          → found ≡ some r
          → last_of (agent_invocation_slot r) records ≡ some r)
      → IsLatest records out
      → IsLatest records (put_record found out)
  unfolding IsLatest
  put_record-IsLatest records none out f h = h
  put_record-IsLatest records (some x) out f h = λ id r e.
      elim (insert-cases x.invocation_id id x out) [
        | inl (k, here) ↦ f r (sym here ∙ e)
        | inr there ↦ h id r (sym there ∙ e)
      ]

  by_id-IsLatest :
      (records : List (AgentInvocationRecord T)) (by_slot : Dict Slot (AgentInvocationRecord T))
      → ((slot : Slot) (r : AgentInvocationRecord T)
          → lookup slot by_slot ≡ some r
          → last_of (agent_invocation_slot r) records ≡ some r)
      → (order : List Slot) (out : Dict String (AgentInvocationRecord T)) → IsLatest records out
      → IsLatest records (by_id by_slot order out)
  unfolding by_id
  by_id-IsLatest records by_slot f [] out h = h
  by_id-IsLatest records by_slot f (slot ∷ order) out h =
      by_id-IsLatest records by_slot f order (put_record (lookup slot by_slot) out)
        (put_record-IsLatest records (lookup slot by_slot) out (f slot) h)

  pub or_none : (a : Option (AgentInvocationRecord T)) → or_else a none ≡ a
  or_none none = refl
  or_none (some a) = refl

  filled-latest :
      (records : List (AgentInvocationRecord T)) (slot : Slot) (r : AgentInvocationRecord T)
      → lookup slot (fill_slots records [] []).0 ≡ some r
      → last_of (agent_invocation_slot r) records ≡ some r
  unfolding lookup
  filled-latest records slot r h =
      let e : last_of slot records ≡ some r =
        sym (fill_slots-last_of slot records [] [] ∙ or_none (last_of slot records)) ∙ h in
      subst (λ s. last_of s records ≡ some r) (sym (last_of-slot slot records r e)) e

  -- For any channel and any update: a record that the merge keeps, under whatever id, is the latest of its
  -- slot among the records of the channel and, after them, those of the update.
  pub merge_agent_invocations-latest :
      (current update : Option (Dict String (AgentInvocationRecord T))) (id : String)
      (r : AgentInvocationRecord T)
      → lookup id (merge_agent_invocations current update) ≡ some r
      → last_of (agent_invocation_slot r) (values_of current update) ≡ some r
  unfolding merge_agent_invocations IsLatest lookup
  merge_agent_invocations-latest current update id r h =
      let records = values_of current update in
      by_id-IsLatest records (fill_slots records [] []).0 (filled-latest records)
        (fill_slots records [] []).1 [] (λ i x e. cc) id r h
