-- ===== src/Runtime/EventPool.antt =====
-- server/src/agent_shell/runtime/output_event_pool.py: `OutputEventRectifier`, which holds model blocks
-- and tool calls back until they are complete, and pairs a tool call with its outcome. The projector is
-- the caller's: `enabled` says whether an event is wanted, and `render` gives its text, or `none` where
-- the author's script raises.
pub mod Keys
pub mod Drain
pub mod Flush
use deepagent_shell.Prelude.{
  ℕ, suc, String, Bool, true, false, not, ◌&&◌, ◌||◌, List, [], ◌∷◌, ◌++◌, Option, none, some, Dict,
  lookup, insert, keep, map, length, if◌then◌else◌, string_eq, nat_eq, pair_eq, ◌==◌, is_some,
}
use deepagent_shell.Runtime.EventPool.Keys.{OutputEvent, event_source_key, event_cycle_key}
use deepagent_shell.Runtime.EventPool.Drain.{PendingEvent, drain}

-- What `_sources` keeps: the pending event that a stream has open, by its number, with the keys that
-- do not change. The pending event itself is shared with the queue, and found there by its number.
pub record SourceState : Type 0 where
  pub source_key : String
  pub cycle_key : String
  pub number : ℕ

pub record Rectifier : Type 0 where
  pub queue : List PendingEvent
  pub sources : Dict (String × String) SourceState
  pub next_number : ℕ

abbrev pub empty : Rectifier
empty = record { queue = []; sources = []; next_number = 0 }

-- The fields that `source.pending.event = event; source.pending.ready = True` assigns. Where the pending
-- event has left the queue, nothing that is read again changes.
unfoldable pub complete : ℕ → OutputEvent → List PendingEvent → List PendingEvent
complete number event [] = []
complete number event (p ∷ queue) =
    (if p.number == number then record p { event = event; ready = true } else p)
    ∷ complete number event queue

abbrev pub pending_of : Rectifier → OutputEvent → Bool → PendingEvent
pending_of r event ready = record {
  number = r.next_number;
  event = event;
  source_key = event_source_key event;
  cycle_key = event_cycle_key event;
  ready = ready;
  boundary_closed = false;
}

abbrev pub close : PendingEvent → PendingEvent
close p = record p { boundary_closed = true }

abbrev pub close_all : List PendingEvent → List PendingEvent
close_all queue = map close queue

-- The end of `flush`: a raise leaves before `discard`.
abbrev pub discarded : Option (List String) × Rectifier → Option (List String) × Rectifier
discarded (none, r) = (none, r)
discarded (some parts, r) = (some parts, record r { queue = []; sources = [] })

-- `_matches_scope`
abbrev pub in_scope : String → Option String → String → String → Bool
in_scope source_key none source cycle = source == source_key
in_scope source_key (some cycle_key) source cycle = source == source_key && cycle == cycle_key

-- The first loop of `_flush_scope`: the items of the scope are closed, and those not ready dropped.
unfoldable pub retain : String → Option String → List PendingEvent → List PendingEvent
retain source_key cycle_key [] = []
retain source_key cycle_key (p ∷ queue) =
    let rest = retain source_key cycle_key queue in
    if in_scope source_key cycle_key p.source_key p.cycle_key
    then (if p.ready then record p { boundary_closed = true } ∷ rest else rest)
    else p ∷ rest

-- `abort` and `discard`
unfoldable pub abort : Rectifier → Option (List String) × Rectifier
abort r = (some [], record r { queue = []; sources = [] })

module _ (enabled : OutputEvent → Bool) where
  unfoldable pub feed_atomic_event : OutputEvent → Rectifier → Rectifier
  feed_atomic_event event r =
      if enabled event
      then record r {
        queue = r.queue ++ pending_of r event true ∷ [];
        next_number = suc r.next_number;
      }
      else r

  abbrev open_stream : OutputEvent → Rectifier → Rectifier
  open_stream event r = record {
    queue = r.queue ++ pending_of r event false ∷ [];
    sources =
        insert (event_source_key event, event.stream_id)
          (record {
            source_key = event_source_key event;
            cycle_key = event_cycle_key event;
            number = r.next_number;
          })
          r.sources;
    next_number = suc r.next_number;
  }

  -- `_feed_source_event`, by the stream's entry in `_sources`.
  abbrev feed_stream : OutputEvent → Option SourceState → Rectifier → Rectifier
  feed_stream event none r =
      if event.phase == "start"
      then (if enabled event then open_stream event r else r)
      else if event.phase == "end"
      then feed_atomic_event event r
      else r
  feed_stream event (some source) r =
      if event.phase == "start"
      then r
      else if event.phase == "end"
      then record r { queue = complete source.number event r.queue }
      else r

  unfoldable pub feed_source_event : OutputEvent → Rectifier → Rectifier
  feed_source_event event r =
      feed_stream event (lookup (event_source_key event, event.stream_id) r.sources) r

module _ (render : OutputEvent → Option String) where
  -- `_drain`: each round takes an item off the queue, so its length is fuel enough. The result is the
  -- parts, or `none` where the script raises.
  abbrev pub drained : Rectifier → Option (List String) × Rectifier
  drained r =
      let (parts, queue) = drain render (length r.queue) r.queue in
      (parts, record r { queue = queue })

  -- `flush`
  unfoldable pub flush : Rectifier → Option (List String) × Rectifier
  flush r = discarded (drained (record r { queue = close_all r.queue }))

  unfoldable pub flush_scope : String → Option String → Rectifier → Option (List String) × Rectifier
  flush_scope source_key cycle_key r = drained (record r {
    queue = retain source_key cycle_key r.queue;
    sources =
        keep (λ (_, s). not (in_scope source_key cycle_key s.source_key s.cycle_key)) r.sources;
  })

unfoldable pub feed :
    (OutputEvent → Bool)
    → (OutputEvent → Option String)
    → OutputEvent
    → Rectifier
    → Option (List String) × Rectifier
feed enabled render event r = drained render (
    if event.stream_id == ""
    then feed_atomic_event enabled event r
    else feed_source_event enabled event r)
