-- ===== src/Runtime/State/Newest.antt =====
-- runtime/state.py: `merge_agent_invocations` for one new record.
use mathlib.Core.Option.{some-injective}
use deepagent_shell.Prelude.{
  String, ◌≡◌, refl, sym, ◌∙◌, ap, subst, true, false, List, [], ◌∷◌, ◌++◌, Option, none, some,
  Dict, lookup, insert, contains, any-append, All, All-append, string_eq, if◌then◌else◌, ◌==◌,
  is_some, lookup-insert, inl, inr, arith, Bool-cases, Option-cases, beq_refl, beq_sym, map,
}
use deepagent_shell.Runtime.State.{or_empty}
use deepagent_shell.Runtime.State.Invocations.{
  AgentInvocationRecord, Slot, slot_eq, slot_beq_iff, agent_invocation_slot, fill_slots, put_record,
  by_id, values_of, merge_agent_invocations, last_of, fill_slots-last_of, or_none,
  merge_agent_invocations-latest,
}

module _ {T : Type 0} (newest : AgentInvocationRecord T) where
  last_of-newest :
      (slot : Slot) (records : List (AgentInvocationRecord T))
      → agent_invocation_slot newest ≡ slot
      → last_of slot (records ++ newest ∷ []) ≡ some newest
  last_of-newest slot [] e =
      rw
        (subst (λ s. (agent_invocation_slot newest == s) ≡ true) e
          (beq_refl (agent_invocation_slot newest)))
        (refl)
  last_of-newest slot (r ∷ records) e = rw (last_of-newest slot records e) (refl)

  -- A record of the id of the new one is the new one.
  abbrev IsNew : AgentInvocationRecord T → Type 0
  IsNew r = (r.invocation_id == newest.invocation_id) ≡ true → r ≡ newest

  last_of-All :
      (P : AgentInvocationRecord T → Type 0) (slot : Slot)
      (records : List (AgentInvocationRecord T)) (r : AgentInvocationRecord T)
      → All P records
      → last_of slot records ≡ some r
      → P r
  last_of-All P slot [] r h e = cc
  last_of-All P slot (x ∷ records) r h e = elim (Option-cases (last_of slot records)) [
    | inr (y, k) ↦ last_of-All P slot records r h.1 (k ∙ (rw k at e))
    | inl k ↦ elim (Bool-cases (agent_invocation_slot x == slot)) [
      | inl b ↦ subst P (some-injective x r (rw (k, b) at e)) h.0
      | inr b ↦ cc (rw (k, b) at e)
    ]
  ]

  -- The slots of the dict are in the order.
  abbrev Listed : Dict Slot (AgentInvocationRecord T) → List Slot → Type 0
  Listed by_slot order = (s : Slot) → is_some (lookup s by_slot) ≡ true → contains s order ≡ true

  Listed-insert :
      (slot : Slot) (r : AgentInvocationRecord T) (by_slot : Dict Slot (AgentInvocationRecord T))
      (order : List Slot)
      → Listed by_slot order
      → Listed
          (insert slot r by_slot)
          (if is_some (lookup slot by_slot) then order else order ++ slot ∷ [])
  Listed-insert slot r by_slot order h s there = elim (Bool-cases (is_some (lookup slot by_slot))) [
    | inl known ↦ rw known (elim (Bool-cases (slot == s)) [
      | inl e ↦ subst (λ i. contains i order ≡ true) ((slot_beq_iff slot s).0 e) (h slot known)
      | inr n ↦ h s (rw (lookup-insert slot s r by_slot, n) at there)
    ])
    | inr unknown ↦
        rw (unknown, any-append (λ x. s == x) order (slot ∷ []))
          (elim (Bool-cases (slot == s)) [
            | inl e ↦ ground (arith, beq_sym slot s, e)
            | inr n ↦ rw (h s (rw (lookup-insert slot s r by_slot, n) at there)) (refl)
          ])
  ]

  fill_slots-Listed :
      (records : List (AgentInvocationRecord T)) (by_slot : Dict Slot (AgentInvocationRecord T))
      (order : List Slot)
      → Listed by_slot order
      → Listed (fill_slots records by_slot order).0 (fill_slots records by_slot order).1
  unfolding fill_slots
  fill_slots-Listed [] by_slot order h = h
  fill_slots-Listed (r ∷ records) by_slot order h =
      fill_slots-Listed records _ _ (Listed-insert (agent_invocation_slot r) r by_slot order h)

  put_record-newest :
      (found : Option (AgentInvocationRecord T)) (out : Dict String (AgentInvocationRecord T))
      → ((r : AgentInvocationRecord T) → found ≡ some r → IsNew r)
      → lookup newest.invocation_id out ≡ some newest
      → lookup newest.invocation_id (put_record found out) ≡ some newest
  put_record-newest none out f h = h
  put_record-newest (some r) out f h = elim (Bool-cases (r.invocation_id == newest.invocation_id)) [
    | inl e ↦
        lookup-insert r.invocation_id newest.invocation_id r out
        ∙ rw e (ap (λ x. some x) (f r refl e))
    | inr e ↦ lookup-insert r.invocation_id newest.invocation_id r out ∙ rw e (h)
  ]

  module _ (by_slot : Dict Slot (AgentInvocationRecord T))
      (f : (s : Slot) (r : AgentInvocationRecord T) → lookup s by_slot ≡ some r → IsNew r) where
    by_id-keeps :
        (order : List Slot) (out : Dict String (AgentInvocationRecord T))
        → lookup newest.invocation_id out ≡ some newest
        → lookup newest.invocation_id (by_id by_slot order out) ≡ some newest
    unfolding by_id
    by_id-keeps [] out h = h
    by_id-keeps (slot ∷ order) out h =
        by_id-keeps order (put_record (lookup slot by_slot) out)
          (put_record-newest (lookup slot by_slot) out (f slot) h)

    by_id-newest :
        (slot : Slot) (order : List Slot) (out : Dict String (AgentInvocationRecord T))
        → lookup slot by_slot ≡ some newest
        → contains slot order ≡ true
        → lookup newest.invocation_id (by_id by_slot order out) ≡ some newest
    unfolding by_id
    by_id-newest slot [] out here c = cc
    by_id-newest slot (s ∷ order) out here c = elim (Bool-cases (slot == s)) [
      | inl e ↦ by_id-keeps order (put_record (lookup s by_slot) out) (
          subst (λ o. lookup newest.invocation_id (put_record o out) ≡ some newest)
            (sym (subst (λ i. lookup i by_slot ≡ some newest) ((slot_beq_iff slot s).0 e) here))
            (lookup-insert newest.invocation_id newest.invocation_id newest out
              ∙ rw (beq_refl newest.invocation_id) (refl)))
      | inr e ↦ by_id-newest slot order _ here (rw e at c)
    ]

  apart-IsNew :
      (entries : Dict String (AgentInvocationRecord T))
      → All (λ entry. (entry.1.invocation_id == newest.invocation_id) ≡ false) entries
      → All IsNew (map (λ p. p.1) entries)
  apart-IsNew [] h = tt
  apart-IsNew (entry ∷ entries) h = ((λ e. cc (e, h.0)), apart-IsNew entries h.1)

  -- A record is merged that no record of the channel shares its id with: it stands under its id, and no other
  -- record of its slot is kept.
  pub merge_agent_invocations-newest :
      (current : Option (Dict String (AgentInvocationRecord T)))
      → All (λ entry. (entry.1.invocation_id == newest.invocation_id) ≡ false) (or_empty current)
      → (lookup newest.invocation_id
            (merge_agent_invocations current (some ((newest.invocation_id, newest) ∷ [])))
          ≡ some newest)
        × ((key : String) (r : AgentInvocationRecord T)
            → lookup key
                (merge_agent_invocations current (some ((newest.invocation_id, newest) ∷ [])))
              ≡ some r
            → agent_invocation_slot r ≡ agent_invocation_slot newest
            → r ≡ newest)
  unfolding merge_agent_invocations lookup
  merge_agent_invocations-newest current apart =
      let start : Listed [] [] = λ s c. cc in
      let update = some ((newest.invocation_id, newest) ∷ []) in
      let records = values_of current update in
      let slot = agent_invocation_slot newest in
      let filled = fill_slots records [] [] in
      let last = last_of-newest slot (map (λ p. p.1) (or_empty current)) refl in
      let look : (s : Slot) → lookup s filled.0 ≡ last_of s records =
        λ s. fill_slots-last_of s records [] [] ∙ or_none (last_of s records) in
      let here = look slot ∙ last in
      let each =
        All-append IsNew (map (λ p. p.1) (or_empty current)) (newest ∷ [])
          (apart-IsNew (or_empty current) apart) ((λ e. refl), tt) in
      (
        by_id-newest filled.0 (λ s r h. last_of-All IsNew s records r each (sym (look s) ∙ h)) slot
            filled.1 [] here (fill_slots-Listed records [] [] start slot (rw here (refl))),
        λ key r h e. some-injective r newest (
            sym (merge_agent_invocations-latest current update key r h)
            ∙ subst (λ s. last_of s records ≡ some newest) (sym e) last),
      )
