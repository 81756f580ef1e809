-- ===== src/Runtime/EventPool/Flush.antt =====
-- What `flush`, `flush_source` and `flush_cycle` leave behind.
use deepagent_shell.Prelude.{
  String, Bool, true, false, not, ◌&&◌, List, [], ◌∷◌, ◌++◌, Option, none, some, string_eq, ◌≡◌,
  refl, arith, Bool-cases, sym, ◌∙◌, any, or_false, length, inl, inr,
}
use deepagent_shell.Runtime.EventPool.Keys.{OutputEvent}
use deepagent_shell.Runtime.EventPool.Drain.{PendingEvent, drain}
use deepagent_shell.Runtime.EventPool.Drain.Partners.{any-Perm}
use deepagent_shell.Runtime.EventPool.Drain.Groups.{Drained, drain-Drained, flatten}
use deepagent_shell.Runtime.EventPool.Drain.Settled.{settled, ready_in, open_in}
use deepagent_shell.Runtime.EventPool.Drain.Quiet.{IsQuiet, drain-IsQuiet}
use deepagent_shell.Runtime.EventPool.{
  discarded, Rectifier, flush, flush_scope, retain, in_scope, close_all,
}

any_append-right :
    (p : PendingEvent → Bool) (xs ys : List PendingEvent)
    → any p (xs ++ ys) ≡ false
    → any p ys ≡ false
any_append-right p [] ys h = h
any_append-right p (x ∷ xs) ys h = any_append-right p xs ys (or_false (p x) (any p (xs ++ ys)) h).1

-- What holds of no item of a queue holds of none that `_drain` leaves.
left-any :
    (render : OutputEvent → Option String) (p : PendingEvent → Bool) (queue : List PendingEvent)
    (result : Option (List String) × List PendingEvent)
    → Drained render queue result
    → any p queue ≡ false
    → any p result.1 ≡ false
left-any render p queue (parts, left) (groups, good, same, e) h =
    any_append-right p (flatten groups) left (sym (any-Perm p queue _ same) ∙ h)

-- A drain of a queue in which the ready items of a scope are closed leaves no ready item of the scope.
drain-settled :
    (render : OutputEvent → Option String) (scope : String → String → Bool)
    (queue : List PendingEvent)
    → any (open_in scope) queue ≡ false
    → (result : Option (List String) × List PendingEvent) → Drained render queue result
    → IsQuiet result
    → (parts : List String) → result.0 ≡ some parts
    → any (ready_in scope) result.1 ≡ false
drain-settled render scope queue closed (none, left) d q parts e = cc
drain-settled render scope queue closed (some texts, left) d q parts e =
    settled scope left (left-any render (open_in scope) queue (some texts, left) d closed) q

close_all-closed :
    (scope : String → String → Bool) (queue : List PendingEvent)
    → any (open_in scope) (close_all queue) ≡ false
close_all-closed scope [] = refl
close_all-closed scope (p ∷ queue) = ground (arith, close_all-closed scope queue)

retain-closed :
    (source_key : String) (cycle_key : Option String) (queue : List PendingEvent)
    → any (open_in (in_scope source_key cycle_key)) (retain source_key cycle_key queue) ≡ false
unfolding retain
retain-closed source_key cycle_key [] = refl
retain-closed source_key cycle_key (p ∷ queue) =
    let ih = retain-closed source_key cycle_key queue in
    elim (Bool-cases (in_scope source_key cycle_key p.source_key p.cycle_key)) [
      | inl e ↦ rw (e) (ground (arith, ih, e))
      | inr e ↦ rw (e) (ground (arith, ih, e))
    ]

-- Only ready items of the scope are retained.
unready_in : (String → String → Bool) → PendingEvent → Bool
unready_in scope p = scope p.source_key p.cycle_key && not p.ready

retain-ready :
    (source_key : String) (cycle_key : Option String) (queue : List PendingEvent)
    → any (unready_in (in_scope source_key cycle_key)) (retain source_key cycle_key queue) ≡ false
unfolding retain unready_in
retain-ready source_key cycle_key [] = refl
retain-ready source_key cycle_key (p ∷ queue) =
    let ih = retain-ready source_key cycle_key queue in
    elim (Bool-cases (in_scope source_key cycle_key p.source_key p.cycle_key)) [
      | inl e ↦ rw (e) (ground (arith, ih, e))
      | inr e ↦ rw (e) (ground (arith, ih, e))
    ]

scope_gone :
    (scope : String → String → Bool) (queue : List PendingEvent)
    → any (unready_in scope) queue ≡ false
    → any (ready_in scope) queue ≡ false
    → any (λ p. scope p.source_key p.cycle_key) queue ≡ false
unfolding unready_in
scope_gone scope [] h k = refl
scope_gone scope (p ∷ queue) h k =
    let (h1, h2) = or_false (unready_in scope p) (any (unready_in scope) queue) h in
    let (k1, k2) = or_false (ready_in scope p) (any (ready_in scope) queue) k in
    ground (arith, h1, k1, scope_gone scope queue h2 k2)

module _ (render : OutputEvent → Option String) where
  -- After a `flush_source` (no cycle key) or a `flush_cycle` that returns, no item of the scope is left
  -- in the queue, whatever the queue held.
  pub flush_scope-clears :
      (source_key : String) (cycle_key : Option String) (r : Rectifier) (parts : List String)
      → (flush_scope render source_key cycle_key r).0 ≡ some parts
      → any
          (λ p. in_scope source_key cycle_key p.source_key p.cycle_key)
          (flush_scope render source_key cycle_key r).1.queue
        ≡ false
  unfolding flush_scope
  flush_scope-clears source_key cycle_key r parts h =
      let queue = retain source_key cycle_key r.queue in
      let scope = in_scope source_key cycle_key in
      let d = drain-Drained render (length queue) queue in
      scope_gone scope (drain render (length queue) queue).1
        (left-any render (unready_in scope) queue _ d (retain-ready source_key cycle_key r.queue))
        (drain-settled render scope queue (retain-closed source_key cycle_key r.queue) _ d
          (drain-IsQuiet render (length queue) queue (omega arith)) parts h)

  -- What `flush` gives on a pool, where it does not raise: the texts of groups of items, and a pool with
  -- neither items nor open streams. The groups are items of the queue, in some order, and the items
  -- left out of them are not ready.
  abbrev pub Flushed : Rectifier → Option (List String) × Rectifier → Type 0
  Flushed r (none, end) = Unit
  Flushed r (some parts, end) =
      (end.queue ≡ [])
      × (end.sources ≡ [])
      × (left : List PendingEvent) × Drained render (close_all r.queue) (some parts, left)
      × (any (λ p. p.ready) left ≡ false)

  discarded-Flushed :
      (r closed : Rectifier) (result : Option (List String) × List PendingEvent)
      → Drained render (close_all r.queue) result
      → ((parts : List String) → result.0 ≡ some parts → any (λ p. p.ready) result.1 ≡ false)
      → Flushed r (discarded (result.0, record closed { queue = result.1 }))
  discarded-Flushed r closed (none, left) d h = tt
  discarded-Flushed r closed (some parts, left) d h = (refl, refl, left, d, h parts refl)

  -- For any pool and any script: where `flush` returns, the pool has neither items nor open streams, and
  -- the parts are the texts of groups of the queue's items; every ready item is in a group.
  pub flush-Flushed : (r : Rectifier) → Flushed r (flush render r)
  unfolding flush
  flush-Flushed r =
      let queue = close_all r.queue in
      let d = drain-Drained render (length queue) queue in
      discarded-Flushed r (record r { queue = queue }) (drain render (length queue) queue) d
        (drain-settled render (λ s c. true) queue (close_all-closed (λ s c. true) r.queue) _ d
          (drain-IsQuiet render (length queue) queue (omega arith)))
