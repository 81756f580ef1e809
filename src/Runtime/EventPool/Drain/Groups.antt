-- ===== src/Runtime/EventPool/Drain/Groups.antt =====
-- What `_drain` takes off the queue, round by round.
use mathlib.Core.List.{Perm}
use mathlib.Core.List.Perm
use deepagent_shell.Prelude.{
  ℕ, zero, suc, String, false, List, [], ◌∷◌, ◌++◌, Option, none, some, string_eq, ◌≡◌, refl, arith,
  All, sym, append_assoc, append-nil,
}
use deepagent_shell.Runtime.EventPool.Keys.{OutputEvent}
use deepagent_shell.Runtime.EventPool.Drain.{
  PendingEvent, next_ready_item, take_tool_partner, ordered, with_part, render_all, before_parts,
  drain, after_group,
}
use deepagent_shell.Runtime.EventPool.Drain.Partners.{
  IsGroup, Picked, next_ready_item-Picked, take_tool_partner-Partnered, ordered-Perm,
}

abbrev pub flatten : List (List PendingEvent) → List PendingEvent
flatten [] = []
flatten (group ∷ groups) = group ++ flatten groups

before_parts-nil : (r : Option (List String)) → r ≡ before_parts (some []) r
before_parts-nil none = refl
before_parts-nil (some parts) = refl

with_part-before_parts :
    (render : OutputEvent → Option String) (t : Option String) (r s : Option (List String))
    → with_part render t (before_parts r s) ≡ before_parts (with_part render t r) s
with_part-before_parts render none r s = refl
with_part-before_parts render (some text) none s = refl
with_part-before_parts render (some text) (some parts) none = refl
with_part-before_parts render (some text) (some parts) (some more) = ground arith

render_all-append :
    (render : OutputEvent → Option String) (xs ys : List PendingEvent)
    → render_all render (xs ++ ys) ≡ before_parts (render_all render xs) (render_all render ys)
unfolding render_all
render_all-append render [] ys = before_parts-nil (render_all render ys)
render_all-append render (x ∷ xs) ys =
    rw (render_all-append render xs ys)
      (with_part-before_parts render (render x.event) (render_all render xs) (render_all render ys))

-- A run of `_drain` that takes the groups off the queue, one after the other.
abbrev pub Drained :
    (OutputEvent → Option String)
    → List PendingEvent
    → Option (List String) × List PendingEvent
    → Type 0
Drained render queue (parts, left) =
    (groups : List (List PendingEvent)) × All IsGroup groups
    × Perm queue (flatten groups ++ left)
    × (parts ≡ render_all render (flatten groups))

after_group-Drained :
    (render : OutputEvent → Option String) (queue group left : List PendingEvent)
    → IsGroup group
    → Perm queue (group ++ left)
    → (r : Option (List String)) → r ≡ render_all render group
    → (later : Option (List String) × List PendingEvent) → Drained render left later
    → Drained render queue (after_group r left later)
unfolding render_all
after_group-Drained render queue group left good same none e later h =
    (group ∷ [], (good, tt), rw (append-nil group) (same), rw (append-nil group) (e))
after_group-Drained render queue group left good same (some parts) e (more, end)
      (groups, all, k, j) =
    (
      group ∷ groups,
      (good, all),
      rw (append_assoc group (flatten groups) end) (Perm.trans same (Perm.append_left group k)),
      rw (render_all-append render group (flatten groups), sym e, sym j) refl,
    )

round-Drained :
    (render : OutputEvent → Option String) (fuel : ℕ) (queue : List PendingEvent)
    → ((l : List PendingEvent) → Drained render l (drain render fuel l))
    → (next : Option (PendingEvent × List PendingEvent)) → Picked queue queue next
    → Drained render queue (elim next [
      | none ↦ (some [], queue)
      | some (item, rest) ↦
          let (group, left) = ordered item rest (take_tool_partner item rest) in
          after_group (render_all render group) left (drain render fuel left)
    ])
unfolding render_all
round-Drained render fuel queue ih none h = ([], tt, Perm.rfl, refl)
round-Drained render fuel queue ih (some (item, rest)) (same, (seen, h)) =
    let r = take_tool_partner item rest in
    let (good, left_same) =
      ordered-Perm queue rest item seen same h r (take_tool_partner-Partnered item rest) in
    let (group, left) = ordered item rest r in
    after_group-Drained render queue group left good left_same (render_all render group) refl
      (drain render fuel left) (ih left)

-- For a queue and any number of rounds: what leaves the queue is a list of groups, each a ready item alone
-- or a ready tool call followed by its ready outcome of the same source, cycle and call id; a tool call
-- leaves alone only where it has no id or its boundary is closed. The groups and what is left are the
-- queue's items, none lost and none twice, and the result is the texts of the groups in order, a raise
-- of the script included.
pub drain-Drained :
    (render : OutputEvent → Option String) (fuel : ℕ) (queue : List PendingEvent)
    → Drained render queue (drain render fuel queue)
unfolding drain render_all
drain-Drained render zero queue = ([], tt, Perm.rfl, refl)
drain-Drained render (suc fuel) queue =
    round-Drained render fuel queue (drain-Drained render fuel) (next_ready_item queue false queue)
      (next_ready_item-Picked queue false queue)
