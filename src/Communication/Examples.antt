-- ===== src/Communication/Examples.antt =====
-- A bus with two agents, "ann" and "bob", and some messages of ann's.
use nexus_ai_workspace.Common.{
  ◌≤◌, String, String_discrete, List, [], ◌∷◌, Option, none, some, ◌≡◌, refl, ◌+◌, length, is_some,
  if◌then◌else◌, arith,
}
use nexus_ai_workspace.Common.Map.{get, set}
use nexus_ai_workspace.Values.{number}
use nexus_ai_workspace.Priority.{high}
use nexus_ai_workspace.Communication.Message.{AgentMessage, pending, notification}
use nexus_ai_workspace.Communication.Inbox.{AgentInbox}
use nexus_ai_workspace.Communication.Inbox
use nexus_ai_workspace.Communication.Outbox
use nexus_ai_workspace.Communication.Outbox.Laws as OutboxLaws
use nexus_ai_workspace.Communication.Bus.{
  RegisteredAgent, AgentBus, create, register, new_agent, broadcast, send,
}
use nexus_ai_workspace.Communication.Bus.Laws.{IsValid}
use nexus_ai_workspace.Communication.Bus.History as BusHistory
use nexus_ai_workspace.Communication.Bus.History.{
  Call, registers, broadcasts, uses_inbox, uses_outbox, run, step, bus_run-IsValid,
}
use nexus_ai_workspace.Communication.Inbox.Laws as InboxLaws
use nexus_ai_workspace.Communication.Bus.Broadcast.{reachable, broadcast-reachable}
use nexus_ai_workspace.Communication.Bus.Direct.{reaches, send_direct}

abbrev message : Option String → AgentMessage
message receiver = record {
  message_id = "m";
  sender_agent_id = "ann";
  receiver_agent_id = receiver;
  conversation_id = none;
  workspace_id = "w";
  request_id = "r";
  trace_id = "t";
  timestamp = 1;
  priority = high;
  type = notification;
  status = pending;
  payload = number 0;
  metadata = [];
}

abbrev to_bob : AgentMessage
to_bob = message (some "bob")

abbrev to_all : AgentMessage
to_all = message none

abbrev registrations : List Call
registrations = registers "ann" [] 0 ∷ registers "bob" [] 0 ∷ []

abbrev bus : AgentBus
bus = run create registrations

abbrev ann : RegisteredAgent
ann = new_agent "ann" [] 0

bus-IsValid : IsValid bus
bus-IsValid = bus_run-IsValid registrations

bus_ann : get "ann" bus.agents ≡ some ann
unfolding String_discrete run step create register get set
bus_ann = refl

bus_room : length bus.message_log + 2 ≤ 1000
unfolding String_discrete run step create register get set
bus_room = omega arith

abbrev bobs : AgentInbox
bobs = Inbox.create "bob"

abbrev bobs_pushed : AgentInbox
bobs_pushed = (Inbox.push bobs to_bob 2).0

abbrev sends : List OutboxLaws.Call
sends =
    OutboxLaws.enqueues to_bob
    ∷ OutboxLaws.enqueues to_all
    ∷ OutboxLaws.dequeues 3
    ∷ OutboxLaws.marks_as_failed "m" "no answer" 4
    ∷ []

-- Two agents; a direct message, which its receiver takes out; a broadcast; and an outbox with a
-- message that fails.
abbrev exchanges : List Call
exchanges =
    registers "ann" [] 0
    ∷ registers "bob" [] 0
    ∷ BusHistory.sends to_bob 1
    ∷ uses_inbox "bob" (InboxLaws.pops 2)
    ∷ broadcasts to_all 3
    ∷ uses_outbox "ann" (OutboxLaws.enqueues to_bob)
    ∷ uses_outbox "ann" (OutboxLaws.marks_as_failed "m" "no answer" 4)
    ∷ []

bus_run-IsValid_example : IsValid (run create exchanges)
bus_run-IsValid_example = bus_run-IsValid exchanges

outbox_run-IsValid_example : OutboxLaws.IsValid (OutboxLaws.run (Outbox.create "ann") sends)
outbox_run-IsValid_example = OutboxLaws.outbox_run-IsValid "ann" sends

broadcast-reachable_example :
    (broadcast bus to_all 2).1
    ≡ (if is_some (get "ann" bus.agents) then some (reachable "ann" bus.agents) else none)
broadcast-reachable_example = broadcast-reachable bus to_all 2 bus-IsValid

send_direct_example : (send bus to_bob 2).1 ≡ reaches (get "ann" bus.agents) (get "bob" bus.agents)
unfolding String_discrete
send_direct_example = send_direct bus to_bob 2 "bob" bus-IsValid refl
