-- ===== src/Runtime/EventPool/Drain/Settled.antt =====
-- The items of a scope whose boundary is closed, in a queue that `_next_ready_item` finds nothing in.

use deepagent_shell.Prelude.{
  String, Bool, true, false, not, ◌&&◌, ◌||◌, List, [], ◌∷◌, Option, none, some, if◌then◌else◌,
  string_eq, ◌==◌, is_some, first, ◌≡◌, refl, arith, Bool-cases, ◌∙◌, any, or_false, inl, inr,
}
use deepagent_shell.Runtime.EventPool.Drain.{
  PendingEvent, is_outcome, is_call, is_partner, find_tool_partner, Verdict, take, pass, unmatched,
  verdict, behind, next_ready_item,
}
use deepagent_shell.Runtime.EventPool.Drain.Partners.{is_some-first, partner-eq, call-not_outcome}

-- What is taken wherever it stands in the queue.
abbrev sure : List PendingEvent → PendingEvent → Bool
sure queue p =
    p.ready
    && (if is_call p
        then p.event.tool_call_id == "" || p.boundary_closed
        else not (is_outcome p && is_some (find_tool_partner p queue)))

behind-none :
    (c : PendingEvent) (r : Option (PendingEvent × List PendingEvent))
    → behind c r ≡ none
    → r ≡ none
behind-none c none h = refl
behind-none c (some (p, rest)) h = cc

-- What the loop goes on to after a verdict.
abbrev pub walked :
    List PendingEvent
    → List PendingEvent
    → Bool
    → PendingEvent
    → Verdict
    → Option (PendingEvent × List PendingEvent)
walked queue rest seen c take = some (c, rest)
walked queue rest seen c pass = behind c (next_ready_item queue seen rest)
walked queue rest seen c unmatched = behind c (next_ready_item queue true rest)

verdict-none :
    (queue rest : List PendingEvent) (seen : Bool) (c : PendingEvent) (v : Verdict)
    → verdict queue seen c ≡ v
    → walked queue rest seen c v ≡ none
    → (sure queue c ≡ false) × ((later : Bool) × (next_ready_item queue later rest ≡ none))
unfolding verdict
verdict-none queue rest seen c take e h = cc
verdict-none queue rest seen c pass e h = (ground (arith, e), (seen, behind-none c _ h))
verdict-none queue rest seen c unmatched e h = (ground (arith, e), (true, behind-none c _ h))

next_ready_item-none :
    (queue : List PendingEvent) (seen : Bool) (l : List PendingEvent)
    → next_ready_item queue seen l ≡ none
    → any (sure queue) l ≡ false
unfolding next_ready_item
next_ready_item-none queue seen [] h = refl
next_ready_item-none queue seen (c ∷ l) h =
    let (unsure, (later, k)) = verdict-none queue l seen c (verdict queue seen c) refl h in
    rw (unsure) (next_ready_item-none queue later l k)

any-cover :
    (f g h : PendingEvent → Bool)
    → ((p : PendingEvent) → f p ≡ true → (g p || h p) ≡ true)
    → (l : List PendingEvent) → any g l ≡ false
    → any h l ≡ false
    → any f l ≡ false
any-cover f g h cover [] kg kh = refl
any-cover f g h cover (p ∷ l) kg kh =
    let (g1, g2) = or_false (g p) (any g l) kg in
    let (h1, h2) = or_false (h p) (any h l) kh in
    ground (arith, cover p, g1, h1, any-cover f g h cover l g2 h2)

any-const : (l : List PendingEvent) → any (λ p. false) l ≡ false
any-const [] = refl
any-const (p ∷ l) = any-const l

-- An item of the scope that is ready, one that is also a tool call, and one whose boundary is still open.
module _ (scope : String → String → Bool) where
  abbrev pub ready_in : PendingEvent → Bool
  ready_in p = scope p.source_key p.cycle_key && p.ready

  abbrev call_in : PendingEvent → Bool
  call_in p = ready_in p && is_call p

  abbrev pub open_in : PendingEvent → Bool
  open_in p = ready_in p && not p.boundary_closed

  partner-call_in :
      (item c : PendingEvent)
      → (ready_in item && is_outcome item) ≡ true
      → is_partner item c ≡ true
      → (call_in c || false) ≡ true
  unfolding is_partner
  partner-call_in item c h fits =
      let same = partner-eq item c fits in
      rw (same.0, same.1) (ground (arith, h, fits, call-not_outcome item.event.event_type))

  call-cover :
      (queue : List PendingEvent) (p : PendingEvent)
      → call_in p ≡ true
      → (sure queue p || open_in p) ≡ true
  call-cover queue p h = ground (arith, h)

  outcome-cover :
      (queue : List PendingEvent)
      → any call_in queue ≡ false
      → (p : PendingEvent) → (ready_in p && is_outcome p) ≡ true
      → (sure queue p || call_in p) ≡ true
  unfolding find_tool_partner
  outcome-cover queue calls p h =
      let alone : is_some (first (is_partner p) queue) ≡ false =
        is_some-first (is_partner p) queue
        ∙ any-cover (is_partner p) call_in (λ c. false) (λ c fits. partner-call_in p c h fits) queue
            calls (any-const queue) in
      ground (arith, h, alone, call-not_outcome p.event.event_type)

  pub settled :
      (queue : List PendingEvent)
      → any open_in queue ≡ false
      → next_ready_item queue false queue ≡ none
      → any ready_in queue ≡ false
  settled queue closed h =
      let unsure = next_ready_item-none queue false queue h in
      let calls = any-cover call_in (sure queue) open_in (call-cover queue) queue unsure closed in
      any-cover ready_in (sure queue) call_in
        (λ p k. elim (Bool-cases (is_outcome p)) [
          | inl e ↦ outcome-cover queue calls p (ground (arith, e, k))
          | inr e ↦ ground (arith, e, k)
        ])
        queue unsure calls
