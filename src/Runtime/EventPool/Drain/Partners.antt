-- ===== src/Runtime/EventPool/Drain/Partners.antt =====
-- One round of `_drain`: the item that `_next_ready_item` picks, and its partner.
use mathlib.Core.List.{Perm}
use mathlib.Core.List.Perm
use mathlib.Core.List.Permᴰ.{Permᴰ, nil, cons, swap, trans}
use mathlib.Core.Bool.{Bool-set}
use mathlib.Core.Logic.{∥∥₁_elim}
use deepagent_shell.Prelude.{
  String, Bool, true, false, not, ◌&&◌, ◌||◌, List, [], ◌∷◌, ◌++◌, Option, none, some,
  if◌then◌else◌, string_eq, ◌==◌, is_some, first, ◌≡◌, refl, arith, Bool-cases, sym, ap, ◌∙◌,
  beq-cases, inl, inr, any,
}
use deepagent_shell.Runtime.EventPool.Drain.{
  PendingEvent, is_outcome, is_call, is_partner, find_tool_partner, Verdict, take, pass, unmatched,
  verdict, behind, next_ready_item, take_tool_partner, ordered,
}

-- A group that leaves the queue whole. A tool call that leaves alone has no id, or its boundary is closed.
abbrev pub IsGroup : List PendingEvent → Type 0
IsGroup [] = ⊥
IsGroup (p ∷ []) =
    (p.ready ≡ true)
    × ((is_call p && not (p.event.tool_call_id == "" || p.boundary_closed)) ≡ false)
IsGroup (c ∷ o ∷ []) =
    ((c.ready && o.ready) ≡ true)
    × ((is_call c && is_outcome o) ≡ true)
    × ((not (c.event.tool_call_id == "")) ≡ true)
    × (o.event.tool_call_id ≡ c.event.tool_call_id)
    × (o.source_key ≡ c.source_key)
    × (o.cycle_key ≡ c.cycle_key)
IsGroup (a ∷ b ∷ c ∷ items) = ⊥

-- The item stands in the list, `rest` is the others, and the item may be taken.
abbrev pub Picked :
    List PendingEvent → List PendingEvent → Option (PendingEvent × List PendingEvent) → Type 0
Picked queue l none = Unit
Picked queue l (some (item, rest)) =
    Perm l (item ∷ rest) × ((seen : Bool) × (verdict queue seen item ≡ take))

any-Permᴰ :
    (p : PendingEvent → Bool) {xs ys : List PendingEvent} → Permᴰ xs ys → any p xs ≡ any p ys
any-Permᴰ p nil = refl
any-Permᴰ p (cons e d) = cc (e, any-Permᴰ p d)
any-Permᴰ p (swap e k) = ground (arith, ap p e, ap p k)
any-Permᴰ p (trans d f) = any-Permᴰ p d ∙ any-Permᴰ p f

behind-Picked :
    (queue l : List PendingEvent) (c : PendingEvent) (r : Option (PendingEvent × List PendingEvent))
    → Picked queue l r
    → Picked queue (c ∷ l) (behind c r)
behind-Picked queue l c none h = tt
behind-Picked queue l c (some (item, rest)) h =
    (Perm.trans (Perm.cons c h.0) (Perm.swap item c rest), h.1)

verdict-Picked :
    (queue rest : List PendingEvent) (seen : Bool) (c : PendingEvent) (v : Verdict)
    → verdict queue seen c ≡ v
    → Picked queue rest (next_ready_item queue seen rest)
    → Picked queue rest (next_ready_item queue true rest)
    → Picked queue (c ∷ rest) (elim v [
      | take ↦ some (c, rest)
      | pass ↦ behind c (next_ready_item queue seen rest)
      | unmatched ↦ behind c (next_ready_item queue true rest)
    ])
verdict-Picked queue rest seen c take e h k = (Perm.rfl, (seen, e))
verdict-Picked queue rest seen c pass e h k = behind-Picked queue rest c _ h
verdict-Picked queue rest seen c unmatched e h k = behind-Picked queue rest c _ k

pub next_ready_item-Picked :
    (queue : List PendingEvent) (seen : Bool) (l : List PendingEvent)
    → Picked queue l (next_ready_item queue seen l)
unfolding next_ready_item
next_ready_item-Picked queue seen [] = tt
next_ready_item-Picked queue seen (c ∷ l) =
    verdict-Picked queue l seen c (verdict queue seen c) refl (next_ready_item-Picked queue seen l)
      (next_ready_item-Picked queue true l)

-- What `_take_tool_partner` finds: the partner, and the others; or nothing fits.
abbrev pub Partnered :
    PendingEvent → List PendingEvent → Option (PendingEvent × List PendingEvent) → Type 0
Partnered item l none = any (is_partner item) l ≡ false
Partnered item l (some (partner, rest)) = Perm l (partner ∷ rest) × (is_partner item partner ≡ true)

choose-Partnered :
    (item c : PendingEvent) (l : List PendingEvent) (b : Bool)
    → is_partner item c ≡ b
    → (r : Option (PendingEvent × List PendingEvent)) → Partnered item l r
    → Partnered item (c ∷ l) (if b then some (c, l) else behind c r)
choose-Partnered item c l true e r h = (Perm.rfl, e)
choose-Partnered item c l false e none h = ground arith
choose-Partnered item c l false e (some (p, rest)) h =
    (Perm.trans (Perm.cons c h.0) (Perm.swap p c rest), h.1)

pub take_tool_partner-Partnered :
    (item : PendingEvent) (l : List PendingEvent) → Partnered item l (take_tool_partner item l)
unfolding take_tool_partner
take_tool_partner-Partnered item [] = refl
take_tool_partner-Partnered item (c ∷ l) =
    choose-Partnered item c l (is_partner item c) refl (take_tool_partner item l)
      (take_tool_partner-Partnered item l)

pub any-Perm :
    (p : PendingEvent → Bool) (xs ys : List PendingEvent) → Perm xs ys → any p xs ≡ any p ys
any-Perm p xs ys h = ∥∥₁_elim h (Bool-set (any p xs) (any p ys)) (any-Permᴰ p)

pub is_some-first :
    (p : PendingEvent → Bool) (xs : List PendingEvent) → is_some (first p xs) ≡ any p xs
is_some-first p [] = refl
is_some-first p (x ∷ xs) = ground (arith, is_some-first p xs)

-- No event is a tool call and an outcome.
pub call-not_outcome :
    (t : String) → ((t == "tool_call") && (t == "tool_result" || t == "tool_error")) ≡ false
call-not_outcome t = elim (beq-cases t "tool_call") [ inl e ↦ rw (e) | inr e ↦ ground (arith, e) ]

is_partner_self : (item : PendingEvent) → is_partner item item ≡ false
unfolding is_partner
is_partner_self item = ground (arith, call-not_outcome item.event.event_type)

alone-IsGroup :
    (queue rest : List PendingEvent) (item : PendingEvent) (seen : Bool)
    → Perm queue (item ∷ rest)
    → verdict queue seen item ≡ take
    → any (is_partner item) rest ≡ false
    → IsGroup (item ∷ [])
unfolding verdict find_tool_partner
alone-IsGroup queue rest item seen same h none_fits =
    let found : is_some (first (is_partner item) queue) ≡ false =
      is_some-first (is_partner item) queue
      ∙ any-Perm (is_partner item) queue (item ∷ rest) same
      ∙ ground (arith, is_partner_self item, none_fits) in
    ground (arith, found, h)

-- The keys and ids that a partner shares with the item, as paths.
pub partner-eq :
    (item c : PendingEvent)
    → is_partner item c ≡ true
    → (c.source_key ≡ item.source_key)
      × (c.cycle_key ≡ item.cycle_key)
      × (c.event.tool_call_id ≡ item.event.tool_call_id)
unfolding is_partner
partner-eq item c h = (
  (string_eq.beq_iff c.source_key item.source_key).0 (ground (arith, h)),
  (string_eq.beq_iff c.cycle_key item.cycle_key).0 (ground (arith, h)),
  (string_eq.beq_iff c.event.tool_call_id item.event.tool_call_id).0 (ground (arith, h)),
)

pair-IsGroup :
    (queue : List PendingEvent) (item partner : PendingEvent) (seen : Bool)
    → verdict queue seen item ≡ take
    → is_partner item partner ≡ true
    → IsGroup (if is_outcome item then partner ∷ item ∷ [] else item ∷ partner ∷ [])
unfolding verdict is_partner
pair-IsGroup queue item partner seen h fits =
    let same = partner-eq item partner fits in
    elim (Bool-cases (is_outcome item)) [
      | inl e ↦ rw (e) (
        ground (arith, h, fits),
        ground (arith, h, fits, e, call-not_outcome item.event.event_type),
        rw (same.2) (ground (arith, h, fits)),
        sym same.2,
        sym same.0,
        sym same.1,
      )
      | inr e ↦ rw (e) (
        ground (arith, h, fits),
        ground (arith, h, fits, e),
        ground (arith, h, fits),
        same.2,
        same.0,
        same.1,
      )
    ]

pair_order :
    (item partner : PendingEvent) (left : List PendingEvent) (b : Bool)
    → Perm
        (item ∷ partner ∷ left)
        ((if b then partner ∷ item ∷ [] else item ∷ partner ∷ []) ++ left)
pair_order item partner left true = Perm.swap partner item left
pair_order item partner left false = Perm.rfl

-- A round's group and the queue that it leaves, by the partner that was found.
pub ordered-Perm :
    (queue rest : List PendingEvent) (item : PendingEvent) (seen : Bool)
    → Perm queue (item ∷ rest)
    → verdict queue seen item ≡ take
    → (r : Option (PendingEvent × List PendingEvent)) → Partnered item rest r
    → IsGroup (ordered item rest r).0
      × Perm queue ((ordered item rest r).0 ++ (ordered item rest r).1)
unfolding ordered
ordered-Perm queue rest item seen same h none k =
    (alone-IsGroup queue rest item seen same h k, same)
ordered-Perm queue rest item seen same h (some (partner, left)) k = (
  pair-IsGroup queue item partner seen h k.1,
  Perm.trans same
      (Perm.trans (Perm.cons item k.0) (pair_order item partner left (is_outcome item))),
)
