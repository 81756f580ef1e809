-- ===== src/Runtime/Samples.antt =====
-- An event pool with a tool call whose outcome came late, a text between them, and a stream that is open.
use deepagent_shell.Prelude.{
  Dict, insert, none, lookup, ℕ, String, Bool, true, false, List, [], ◌∷◌, Option, some, ◌≡◌, refl,
  any, string_eq, pair_eq, arith,
}
use deepagent_shell.Runtime.EventPool.Keys.{OutputEvent}
use deepagent_shell.Runtime.EventPool.Drain.{
  PendingEvent, drain, is_partner, find_tool_partner, verdict, next_ready_item, take_tool_partner,
  ordered, render_all,
}
use deepagent_shell.Runtime.EventPool.Drain.Groups.{Drained, drain-Drained}
use deepagent_shell.Runtime.EventPool.Drain.Quiet.{IsQuiet, drain-IsQuiet}
use deepagent_shell.Runtime.EventPool.{Rectifier, empty, in_scope, retain, flush_scope, flush}
use deepagent_shell.Runtime.State.Invocations.{
  AgentInvocationRecord, merge_agent_invocations, fill_slots, by_id, last_of, agent_invocation_slot,
  values_of, merge_agent_invocations-latest,
}
use deepagent_shell.Runtime.EventPool.Flush.{flush_scope-clears, flush-Flushed, Flushed}

abbrev event : String → String → String → OutputEvent
event type call_id content = record {
  event_type = type;
  phase = "";
  sequence = 0;
  namespace = "";
  agent_name = "";
  node = "";
  source_type = "";
  workflow_node_id = "n";
  agent_profile_id = "";
  subagent_profile_id = "";
  tool_call_id = call_id;
  stream_id = "";
  source_key = "n";
  cycle_key = "root";
  content = content;
}

abbrev pending : ℕ → OutputEvent → Bool → PendingEvent
pending number e ready = record {
  number = number;
  event = e;
  source_key = "n";
  cycle_key = "root";
  ready = ready;
  boundary_closed = false;
}

abbrev sample_queue : List PendingEvent
sample_queue =
    pending 0 (event "tool_call" "t1" "call") true
    ∷ pending 1 (event "text" "" "text") true
    ∷ pending 2 (event "tool_call" "t2" "lonely") true
    ∷ pending 3 (event "text" "" "open") false
    ∷ pending 4 (event "tool_result" "t1" "result") true
    ∷ []

abbrev sample_pool : Rectifier
sample_pool = record empty { queue = sample_queue; next_number = 5 }

abbrev content_of : OutputEvent → Option String
content_of e = some e.content

-- The call comes with its outcome, then the text; the call without an outcome waits.
drained_texts : (drain content_of 5 sample_queue).0 ≡ some ("call" ∷ "result" ∷ "text" ∷ [])
unfolding drain next_ready_item verdict find_tool_partner is_partner take_tool_partner ordered
    render_all
drained_texts = refl

drain-Drained_example : Drained content_of sample_queue (drain content_of 5 sample_queue)
drain-Drained_example = drain-Drained content_of 5 sample_queue

drain-IsQuiet_example : IsQuiet (drain content_of 5 sample_queue)
drain-IsQuiet_example = drain-IsQuiet content_of 5 sample_queue (omega arith)

flush-Flushed_example : Flushed content_of sample_pool (flush content_of sample_pool)
flush-Flushed_example = flush-Flushed content_of sample_pool

flushed_texts :
    (flush_scope content_of "n" (some "root") sample_pool).0
    ≡ some ("call" ∷ "result" ∷ "text" ∷ "lonely" ∷ [])
unfolding flush_scope retain drain next_ready_item verdict find_tool_partner is_partner
    take_tool_partner ordered render_all
flushed_texts = refl

flush_scope-clears_example :
    any
      (λ p. in_scope "n" (some "root") p.source_key p.cycle_key)
      (flush_scope content_of "n" (some "root") sample_pool).1.queue
    ≡ false
flush_scope-clears_example =
    flush_scope-clears content_of "n" (some "root") sample_pool
      ("call" ∷ "result" ∷ "text" ∷ "lonely" ∷ []) flushed_texts

abbrev invocation : String → String → AgentInvocationRecord ℕ
invocation id result = record {
  invocation_id = id;
  workflow_id = "w";
  workflow_node_id = "n";
  agent_id = "a";
  invoked_at = 0;
  result_ref = result;
  workflow_task = none;
}

abbrev one_invocation : String → String → Option (Dict String (AgentInvocationRecord ℕ))
one_invocation id result = some ((id, invocation id result) ∷ [])

-- The second invocation of the node takes the place of the first.
second_kept :
    lookup "i2" (merge_agent_invocations (one_invocation "i1" "old") (one_invocation "i2" "new"))
    ≡ some (invocation "i2" "new")
unfolding merge_agent_invocations fill_slots by_id lookup insert
second_kept = refl

merge_agent_invocations-latest_example :
    last_of
      (agent_invocation_slot (invocation "i2" "new"))
      (values_of (one_invocation "i1" "old") (one_invocation "i2" "new"))
    ≡ some (invocation "i2" "new")
merge_agent_invocations-latest_example =
    merge_agent_invocations-latest (one_invocation "i1" "old") (one_invocation "i2" "new") "i2"
      (invocation "i2" "new") second_kept
