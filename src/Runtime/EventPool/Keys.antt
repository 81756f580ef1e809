-- ===== src/Runtime/EventPool/Keys.antt =====
-- The events of server/src/agent_shell/runtime/output_stream.py, as far as the pool reads them, and the
-- keys that the pool gives them. `tool_call_id` is `event.values.get("tool_call_id", "")`; the fields that
-- only an author's script reads are `content`.
use deepagent_shell.Prelude.{
  strip, text_append, ℕ, String, ◌&&◌, if◌then◌else◌, string_eq, ◌==◌, nat_eq, not,
}

pub record OutputEvent : Type 0 where
  pub event_type : String
  pub phase : String
  pub sequence : ℕ
  pub namespace : String
  pub agent_name : String
  pub node : String
  pub source_type : String
  pub workflow_node_id : String
  pub agent_profile_id : String
  pub subagent_profile_id : String
  pub tool_call_id : String
  pub stream_id : String
  pub source_key : String
  pub cycle_key : String
  pub content : String

-- `a + "|" + b`
unfoldable pub bar : String → String → String
unfolding text_append
bar a b = text_append a (text_append "|" b)

unfoldable pub event_source_key : OutputEvent → String
unfolding strip bar
event_source_key event =
    let explicit = strip event.source_key in
    let stable =
      bar event.workflow_node_id
        (bar event.source_type (bar event.agent_profile_id event.subagent_profile_id)) in
    let runtime = strip event.namespace in
    if not (explicit == "")
    then explicit
    else if not (runtime == "") && not (runtime == "root")
    then bar stable runtime
    else stable

unfoldable pub event_cycle_key : OutputEvent → String
unfolding strip
event_cycle_key event =
    let explicit = strip event.cycle_key in
    let runtime = strip event.namespace in
    if not (explicit == "") then explicit else if not (runtime == "") then runtime else "root"
