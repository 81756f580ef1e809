-- ===== src/Runtime/EventPool/Drain.antt =====
-- `_drain` and what it calls: which item leaves the queue next, and with which partner.
pub mod Partners
pub mod Groups
pub mod Settled
pub mod Quiet
use deepagent_shell.Prelude.{
  ℕ, zero, suc, String, Bool, true, false, not, ◌&&◌, ◌||◌, List, [], ◌∷◌, ◌++◌, Option, none, some,
  if◌then◌else◌, string_eq, ◌==◌, is_some, first,
}
use deepagent_shell.Runtime.EventPool.Keys.{OutputEvent}

-- `_PendingEvent`, with a number for its identity.
pub record PendingEvent : Type 0 where
  pub number : ℕ
  pub event : OutputEvent
  pub source_key : String
  pub cycle_key : String
  pub ready : Bool
  pub boundary_closed : Bool

-- `event_type in TOOL_OUTCOME_TYPES`
abbrev pub is_outcome : PendingEvent → Bool
is_outcome p = p.event.event_type == "tool_result" || p.event.event_type == "tool_error"

abbrev pub is_call : PendingEvent → Bool
is_call p = p.event.event_type == "tool_call"

-- The test of the loop in `_find_tool_partner`, with the tests before it.
unfoldable pub is_partner : PendingEvent → PendingEvent → Bool
is_partner item c =
    (is_call item || is_outcome item)
    && (not (item.event.tool_call_id == "")
        && (c.ready
            && (((is_call item && is_outcome c) || (is_outcome item && is_call c))
                && (c.source_key == item.source_key
                    && (c.cycle_key == item.cycle_key
                        && c.event.tool_call_id == item.event.tool_call_id)))))

unfoldable pub find_tool_partner : PendingEvent → List PendingEvent → Option PendingEvent
find_tool_partner item queue = first (is_partner item) queue

-- What the loop of `_next_ready_item` does with a candidate: return it, pass it, or pass it and note a
-- tool call whose outcome is missing.
pub data Verdict : Type 0 where
  take pass unmatched : Verdict

unfoldable pub verdict : List PendingEvent → Bool → PendingEvent → Verdict
verdict queue unmatched_seen c =
    if not c.ready
    then pass
    else if is_call c
    then (if c.event.tool_call_id == "" || c.boundary_closed
        then take
        else if not (is_some (find_tool_partner c queue))
        then unmatched
        else if unmatched_seen
        then pass
        else take)
    else if is_outcome c
    then (if is_some (find_tool_partner c queue) then pass else take)
    else take

abbrev pub behind :
    PendingEvent
    → Option (PendingEvent × List PendingEvent)
    → Option (PendingEvent × List PendingEvent)
behind c none = none
behind c (some (item, rest)) = some (item, c ∷ rest)

-- `_next_ready_item`, with `self._queue.remove(item)`: the item, and the queue without it. `remove`
-- compares by value and takes the first that is equal: that is the item itself, since an equal one before
-- it would have been picked first.
unfoldable pub next_ready_item :
    List PendingEvent → Bool → List PendingEvent → Option (PendingEvent × List PendingEvent)
next_ready_item queue seen [] = none
next_ready_item queue seen (c ∷ rest) = elim (verdict queue seen c) [
  | take ↦ some (c, rest)
  | pass ↦ behind c (next_ready_item queue seen rest)
  | unmatched ↦ behind c (next_ready_item queue true rest)
]

-- `_take_tool_partner`
unfoldable pub take_tool_partner :
    PendingEvent → List PendingEvent → Option (PendingEvent × List PendingEvent)
take_tool_partner item [] = none
take_tool_partner item (c ∷ rest) =
    let later = behind c (take_tool_partner item rest) in
    if is_partner item c then some (c, rest) else later

-- `_render_atomic_with_pair`: the order of the two, and the queue that is left.
unfoldable pub ordered :
    PendingEvent
    → List PendingEvent
    → Option (PendingEvent × List PendingEvent)
    → List PendingEvent × List PendingEvent
ordered item queue none = (item ∷ [], queue)
ordered item queue (some (partner, rest)) =
    (if is_outcome item then partner ∷ item ∷ [] else item ∷ partner ∷ [], rest)

-- `parts.extend(...)`; a raise of either side is one of the whole.
abbrev pub before_parts : Option (List String) → Option (List String) → Option (List String)
before_parts (some parts) (some more) = some (parts ++ more)
before_parts _ _ = none

-- What the loop of `_drain` returns from a round on: the texts of the round's group and of the rounds
-- that follow, with the queue at the end. A raise leaves the queue as the round had it.
abbrev pub after_group :
    Option (List String)
    → List PendingEvent
    → Option (List String) × List PendingEvent
    → Option (List String) × List PendingEvent
after_group none left later = (none, left)
after_group (some parts) left (more, end) = (before_parts (some parts) more, end)

module _ (render : OutputEvent → Option String) where
  abbrev pub with_part : Option String → Option (List String) → Option (List String)
  with_part none parts = none
  with_part (some text) none = none
  with_part (some text) (some parts) = some (if text == "" then parts else text ∷ parts)

  -- The texts of the items in order, without the empty ones; `none` if one of them raises.
  unfoldable pub render_all : List PendingEvent → Option (List String)
  render_all [] = some []
  render_all (p ∷ items) = with_part (render p.event) (render_all items)

  unfoldable pub drain : ℕ → List PendingEvent → Option (List String) × List PendingEvent
  drain zero queue = (some [], queue)
  drain (suc fuel) queue = elim (next_ready_item queue false queue) [
    | none ↦ (some [], queue)
    | some (item, rest) ↦
        let (group, left) = ordered item rest (take_tool_partner item rest) in
        after_group (render_all group) left (drain fuel left)
  ]
