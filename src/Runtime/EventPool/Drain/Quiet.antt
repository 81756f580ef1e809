-- ===== src/Runtime/EventPool/Drain/Quiet.antt =====
-- The queue that `_drain` stops with, and the length of the queue from round to round.

use deepagent_shell.Prelude.{
  ℕ, zero, suc, String, Bool, true, false, List, [], ◌∷◌, Option, none, some, if◌then◌else◌,
  string_eq, ◌≡◌, refl, arith, sym, length, ◌≤◌,
}
use deepagent_shell.Runtime.EventPool.Keys.{OutputEvent}
use deepagent_shell.Runtime.EventPool.Drain.{
  PendingEvent, is_partner, Verdict, take, pass, unmatched, verdict, behind, next_ready_item,
  take_tool_partner, ordered, render_all, after_group, drain,
}
use deepagent_shell.Runtime.EventPool.Drain.Settled.{walked}

-- What is left of a list without one item.
abbrev Shorter : List PendingEvent → Option (PendingEvent × List PendingEvent) → Type 0
Shorter l none = Unit
Shorter l (some (item, rest)) = length l ≡ suc (length rest)

behind-Shorter :
    (c : PendingEvent) (l : List PendingEvent) (r : Option (PendingEvent × List PendingEvent))
    → Shorter l r
    → Shorter (c ∷ l) (behind c r)
behind-Shorter c l none h = tt
behind-Shorter c l (some (item, rest)) h = omega (arith, h)

walked-Shorter :
    (queue l : List PendingEvent) (seen : Bool) (c : PendingEvent)
    → ((later : Bool) → Shorter l (next_ready_item queue later l))
    → (v : Verdict) → Shorter (c ∷ l) (walked queue l seen c v)
walked-Shorter queue l seen c ih take = refl
walked-Shorter queue l seen c ih pass = behind-Shorter c l _ (ih seen)
walked-Shorter queue l seen c ih unmatched = behind-Shorter c l _ (ih true)

next_ready_item-Shorter :
    (queue : List PendingEvent) (seen : Bool) (l : List PendingEvent)
    → Shorter l (next_ready_item queue seen l)
unfolding next_ready_item
next_ready_item-Shorter queue seen [] = tt
next_ready_item-Shorter queue seen (c ∷ l) =
    walked-Shorter queue l seen c (λ later. next_ready_item-Shorter queue later l)
      (verdict queue seen c)

choose-Shorter :
    (c : PendingEvent) (l : List PendingEvent) (b : Bool)
    (r : Option (PendingEvent × List PendingEvent))
    → Shorter l r
    → Shorter (c ∷ l) (if b then some (c, l) else behind c r)
choose-Shorter c l true r h = refl
choose-Shorter c l false r h = behind-Shorter c l r h

take_tool_partner-Shorter :
    (item : PendingEvent) (l : List PendingEvent) → Shorter l (take_tool_partner item l)
unfolding take_tool_partner
take_tool_partner-Shorter item [] = tt
take_tool_partner-Shorter item (c ∷ l) =
    choose-Shorter c l (is_partner item c) (take_tool_partner item l)
      (take_tool_partner-Shorter item l)

ordered-le :
    (item : PendingEvent) (rest : List PendingEvent) (r : Option (PendingEvent × List PendingEvent))
    → Shorter rest r
    → length (ordered item rest r).1 ≤ length rest
unfolding ordered
ordered-le item rest none h = omega arith
ordered-le item rest (some (partner, left)) h = omega (arith, h)

-- No item can be taken from the queue that a run of `_drain` leaves, unless the script raised.
abbrev pub IsQuiet : Option (List String) × List PendingEvent → Type 0
IsQuiet (none, left) = Unit
IsQuiet (some parts, left) = next_ready_item left false left ≡ none

after_group-IsQuiet :
    (r : Option (List String)) (left : List PendingEvent)
    (later : Option (List String) × List PendingEvent)
    → IsQuiet later
    → IsQuiet (after_group r left later)
after_group-IsQuiet none left later h = tt
after_group-IsQuiet (some parts) left (none, end) h = tt
after_group-IsQuiet (some parts) left (some more, end) h = h

module _ (render : OutputEvent → Option String) where
  round-IsQuiet :
      (fuel : ℕ) (queue : List PendingEvent)
      → length queue ≤ suc fuel
      → ((l : List PendingEvent) → length l ≤ fuel → IsQuiet (drain render fuel l))
      → (next : Option (PendingEvent × List PendingEvent))
      → next ≡ next_ready_item queue false queue
      → Shorter queue next
      → IsQuiet (elim next [
        | none ↦ (some [], queue)
        | some (item, rest) ↦
            let (group, left) = ordered item rest (take_tool_partner item rest) in
            after_group (render_all render group) left (drain render fuel left)
      ])
  round-IsQuiet fuel queue enough ih none e h = sym e
  round-IsQuiet fuel queue enough ih (some (item, rest)) e h =
      let r = take_tool_partner item rest in
      let bound = ordered-le item rest r (take_tool_partner-Shorter item rest) in
      let (group, left) = ordered item rest r in
      after_group-IsQuiet (render_all render group) left (drain render fuel left)
        (ih left (omega (arith, bound, enough, h)))

  -- For a queue of at most `fuel` items: `_drain` stops with a queue that `_next_ready_item` finds
  -- nothing in, unless the script raised.
  pub drain-IsQuiet :
      (fuel : ℕ) (queue : List PendingEvent)
      → length queue ≤ fuel
      → IsQuiet (drain render fuel queue)
  unfolding drain next_ready_item
  drain-IsQuiet zero [] enough = refl
  drain-IsQuiet zero (p ∷ queue) enough = absurd (omega (arith, enough))
  drain-IsQuiet (suc fuel) queue enough =
      round-IsQuiet fuel queue enough (drain-IsQuiet fuel) (next_ready_item queue false queue) refl
        (next_ready_item-Shorter queue false queue)
