-- ===== src/Communication/Channel/Examples.antt =====
-- A channel with two subscribers.
use nexus_ai_workspace.Common.{true, List, [], ◌∷◌, none, some}
use nexus_ai_workspace.Values.{number}
use nexus_ai_workspace.Priority.{high}
use nexus_ai_workspace.Communication.Message.{AgentMessage, pending, notification}
use nexus_ai_workspace.Communication.Channel.{AgentChannel, create}
use nexus_ai_workspace.Communication.Channel.Laws.{
  Call, subscribes, publishes, run, IsValid, channel_run-IsValid,
}

abbrev news : AgentMessage
news = record {
  message_id = "m";
  sender_agent_id = "ann";
  receiver_agent_id = some "bob";
  conversation_id = none;
  workspace_id = "w";
  request_id = "r";
  trace_id = "t";
  timestamp = 1;
  priority = high;
  type = notification;
  status = pending;
  payload = number 0;
  metadata = [];
}

abbrev calls : List Call
calls =
    subscribes "ann_1" "ann" 0 none 1
    ∷ subscribes "bob_2" "bob" 1 (some (λ m. true)) 2
    ∷ publishes news
    ∷ []

abbrev channel : AgentChannel
channel = run (create "c") calls

channel_run-IsValid_example : IsValid (run (create "c") calls)
channel_run-IsValid_example = channel_run-IsValid "c" calls
