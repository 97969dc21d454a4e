-- ===== src/Communication/Bus.antt =====
-- agent-bus.ts. A call runs without interruption: the awaited inbox and outbox methods do not wait
-- for anything. An agent's record holds its inbox and its outbox; the methods that hand them out
-- return their values, and what the holder of one does with it is a call of its own (Bus/History).
pub mod Laws
pub mod History
pub mod Broadcast
pub mod Direct
use nexus_ai_workspace.Common.{
  ℕ, zero, suc, String, Bool, true, false, List, [], ◌∷◌, Option, none, some, ◌+◌, ◌===◌, ltb,
  length, is_some, if◌then◌else◌, ◌||◌, not,
}
use Prim.Native.String.{◌++◌ as text_append}
use nexus_ai_workspace.Common.Map.{Map, get, set, delete, has, keys, values}
use nexus_ai_workspace.Common.Map
use nexus_ai_workspace.Values.{Value, Metadata, flag, date}
use nexus_ai_workspace.Communication.Message.{
  AgentMessage, MessageType, broadcast as broadcast_type, is_broadcast,
}
use nexus_ai_workspace.Communication.Inbox.{AgentInbox, InboxError, error_text}
use nexus_ai_workspace.Communication.Inbox
use nexus_ai_workspace.Communication.Outbox.{AgentOutbox}
use nexus_ai_workspace.Communication.Outbox
use nexus_ai_workspace.Communication.Log.{add_to_log, latest}

pub record RegisteredAgent : Type 0 where
  pub agent_id : String
  pub inbox : AgentInbox
  pub outbox : AgentOutbox
  pub registered_at : ℕ
  pub last_activity : ℕ
  pub metadata : Metadata

pub record AgentBus : Type 0 where
  pub agents : Map RegisteredAgent
  pub message_log : List AgentMessage

abbrev pub max_log_size : ℕ
max_log_size = 1000

pub data BusError : Type 0 where
  sender_not_registered : String → BusError
  already_registered : String → BusError

unfoldable pub create : AgentBus
create = record { agents = []; message_log = [] }

unfoldable pub log_message : AgentBus → AgentMessage → AgentBus
log_message b m = record b { message_log = add_to_log max_log_size m b.message_log }

-- `sender.lastActivity = new Date()`
abbrev pub touch : RegisteredAgent → ℕ → RegisteredAgent
touch a now = record a { last_activity = now }

unfoldable pub as_broadcast : AgentMessage → ℕ → AgentMessage
as_broadcast m now = record m {
  type = broadcast_type;
  receiver_agent_id = none;
  metadata = Map.set "broadcastAt" (date now) (Map.set "broadcast" (flag true) m.metadata);
}

-- One delivery of a broadcast: the agent afterwards, and whether the message got there.
abbrev pub received : RegisteredAgent → ℕ → AgentInbox × Option InboxError → RegisteredAgent × Bool
received a now (inbox, none) = (record a { inbox = inbox; last_activity = now }, true)
received a now (inbox, some e) = (record a { inbox = inbox }, false)

unfoldable pub receive : String → RegisteredAgent → AgentMessage → ℕ → RegisteredAgent × Bool
receive id a m now =
    received a now (Inbox.push a.inbox (record m { receiver_agent_id = some id }) now)

-- The deliveries in the order of registration, and their number.
unfoldable pub deliver_all :
    String → AgentMessage → ℕ → Map RegisteredAgent → Map RegisteredAgent × ℕ
deliver_all sender m now [] = ([], 0)
deliver_all sender m now ((id, a) ∷ agents) =
    let (rest, n) = deliver_all sender m now agents in
    let (a', delivered) = receive id a m now in
    if id === sender then ((id, a) ∷ rest, n) else ((id, a') ∷ rest, if delivered then suc n else n)

abbrev pub broadcast_from :
    AgentBus → AgentMessage → ℕ → Option RegisteredAgent → AgentBus × Option ℕ
broadcast_from b m now none = (b, none)
broadcast_from b m now (some sender) =
    let touched = Map.set m.sender_agent_id (touch sender now) b.agents in
    let (agents, n) = deliver_all m.sender_agent_id (as_broadcast m now) now touched in
    (record b { agents = agents }, some n)

-- The number of deliveries; none where the call throws, for a sender that is not registered.
unfoldable pub broadcast : AgentBus → AgentMessage → ℕ → AgentBus × Option ℕ
broadcast b m now =
    let logged = log_message b m in
    broadcast_from logged m now (get m.sender_agent_id logged.agents)

abbrev pub fail_at_sender : AgentBus → AgentMessage → RegisteredAgent → String → ℕ → AgentBus × Bool
fail_at_sender b m sender problem now =
    let outbox = Outbox.mark_as_failed sender.outbox m.message_id problem now in
    (
      record b { agents = Map.set m.sender_agent_id (record sender { outbox = outbox }) b.agents },
      false,
    )

abbrev pub broadcast_sent : AgentBus × Option ℕ → AgentBus × Bool
broadcast_sent (b, none) = (b, false)
broadcast_sent (b, some n) = (b, ltb 0 n)

-- A direct message.
abbrev pub pushed :
    AgentBus
    → AgentMessage
    → String
    → RegisteredAgent
    → AgentInbox × Option InboxError
    → ℕ
    → AgentBus × Bool
pushed b m id receiver (inbox, none) now = (
  record b {
    agents = Map.set id (record receiver { inbox = inbox; last_activity = now }) b.agents;
  },
  true,
)
pushed b m id receiver (inbox, some e) now = elim (get m.sender_agent_id b.agents) [
  | none ↦ (b, false)
  | some sender ↦ fail_at_sender b m sender (error_text e) now
]

abbrev pub send_to :
    AgentBus
    → AgentMessage
    → RegisteredAgent
    → String
    → Option RegisteredAgent
    → ℕ
    → AgentBus × Bool
send_to b m sender id none now =
    fail_at_sender b m sender (text_append "Receiver not found: " id) now
send_to b m sender id (some receiver) now =
    pushed b m id receiver (Inbox.push receiver.inbox m now) now

-- `!message.receiverAgentId || message.type === BROADCAST`
abbrev pub direct_receiver : AgentMessage → Option String
direct_receiver m = elim m.receiver_agent_id [
  | none ↦ none
  | some id ↦ if id === "" || is_broadcast m.type then none else some id
]

abbrev pub send_from : AgentBus → AgentMessage → Option RegisteredAgent → ℕ → AgentBus × Bool
send_from b m none now = (b, false)
send_from b m (some sender) now =
    let touched = record b { agents = Map.set m.sender_agent_id (touch sender now) b.agents } in
    elim (direct_receiver m) [
      | none ↦ broadcast_sent (broadcast touched m now)
      | some id ↦ send_to touched m (touch sender now) id (get id touched.agents) now
    ]

-- The receiver's error, or the missing sender, is caught and makes the result false.
unfoldable pub send : AgentBus → AgentMessage → ℕ → AgentBus × Bool
send b m now =
    let logged = log_message b m in send_from logged m (get m.sender_agent_id logged.agents) now

unfoldable pub new_agent : String → Metadata → ℕ → RegisteredAgent
new_agent id metadata now = record {
  agent_id = id;
  inbox = Inbox.create id;
  outbox = Outbox.create id;
  registered_at = now;
  last_activity = now;
  metadata = metadata;
}

unfoldable pub register : AgentBus → String → Metadata → ℕ → AgentBus × Option BusError
register b id metadata now =
    if has id b.agents
    then (b, some (already_registered id))
    else (record b { agents = Map.set id (new_agent id metadata now) b.agents }, none)

-- The cleared inbox and outbox go with the agent.
unfoldable pub unregister : AgentBus → String → AgentBus × Bool
unregister b id =
    if has id b.agents then (record b { agents = delete id b.agents }, true) else (b, false)

unfoldable pub find_agent : AgentBus → String → Option RegisteredAgent
find_agent b id = get id b.agents

unfoldable pub list_agents : AgentBus → List String
list_agents b = keys b.agents

unfoldable pub get_registered_agents : AgentBus → List RegisteredAgent
get_registered_agents b = values b.agents

unfoldable pub is_registered : AgentBus → String → Bool
is_registered b id = has id b.agents

unfoldable pub get_agent_count : AgentBus → ℕ
get_agent_count b = length b.agents

unfoldable pub get_message_log : AgentBus → Option ℕ → List AgentMessage
get_message_log b limit = latest limit b.message_log

unfoldable pub clear_message_log : AgentBus → AgentBus
clear_message_log b = record b { message_log = [] }

abbrev inbox_of : Option RegisteredAgent → Option AgentInbox
inbox_of none = none
inbox_of (some a) = some a.inbox

unfoldable pub get_agent_inbox : AgentBus → String → Option AgentInbox
get_agent_inbox b id = inbox_of (get id b.agents)

abbrev outbox_of : Option RegisteredAgent → Option AgentOutbox
outbox_of none = none
outbox_of (some a) = some a.outbox

unfoldable pub get_agent_outbox : AgentBus → String → Option AgentOutbox
get_agent_outbox b id = outbox_of (get id b.agents)
