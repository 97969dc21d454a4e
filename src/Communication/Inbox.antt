-- ===== src/Communication/Inbox.antt =====
-- agent-inbox.ts. The clock is an argument.
pub mod Laws
use nexus_ai_workspace.Common.{
  ℕ, String, Bool, true, false, List, [], ◌∷◌, ◌++◌, Option, none, some, ◌===◌, leb, ◌==◌, length,
  if◌then◌else◌, select, insert_before, not,
}
use Prim.Native.String.{◌++◌ as text_append}
use nexus_ai_workspace.Common.Map.{set}
use nexus_ai_workspace.Values.{Value, date, text, Metadata}
use nexus_ai_workspace.Priority.{priority_text}
use nexus_ai_workspace.Communication.Message.{
  AgentMessage, MessageStatus, delivered, processed, type_text, goes_before,
}

pub record AgentInbox : Type 0 where
  pub messages : List AgentMessage
  pub agent_id : String

abbrev pub max_size : ℕ
max_size = 1000

pub data InboxError : Type 0 where
  not_addressed : String → InboxError
  inbox_full : InboxError

-- `error.message`
unfoldable pub error_text : InboxError → String
error_text (not_addressed agent) = text_append "Message not addressed to agent " agent
error_text inbox_full = "Inbox full: maximum 1000 messages"

unfoldable pub create : String → AgentInbox
create agent_id = record { messages = []; agent_id = agent_id }

-- `message.receiverAgentId && message.receiverAgentId !== this.agentId`; an empty text is no
-- receiver.
unfoldable pub is_for_other : Option String → String → Bool
is_for_other none agent = false
is_for_other (some receiver) agent = if receiver === "" then false else not (receiver === agent)

unfoldable pub mark_delivered : AgentMessage → String → ℕ → AgentMessage
mark_delivered m agent now = record m {
  status = delivered;
  metadata = set "deliveredToAgent" (text agent) (set "deliveredAt" (date now) m.metadata);
}

unfoldable pub insert_by_priority : AgentMessage → List AgentMessage → List AgentMessage
insert_by_priority m messages = insert_before (goes_before m) m messages

-- The error, or none and the inbox with the message.
unfoldable pub push : AgentInbox → AgentMessage → ℕ → AgentInbox × Option InboxError
push b m now =
    if is_for_other m.receiver_agent_id b.agent_id
    then (b, some (not_addressed b.agent_id))
    else if leb max_size (length b.messages)
    then (b, some inbox_full)
    else (
      record b { messages = insert_by_priority (mark_delivered m b.agent_id now) b.messages },
      none,
    )

unfoldable pub mark_processed : AgentMessage → String → ℕ → AgentMessage
mark_processed m agent now = record m {
  status = processed;
  metadata = set "processedByAgent" (text agent) (set "processedAt" (date now) m.metadata);
}

abbrev pub pop_from : AgentInbox → List AgentMessage → ℕ → AgentInbox × Option AgentMessage
pop_from b [] now = (b, none)
pop_from b (m ∷ rest) now = (record b { messages = rest }, some (mark_processed m b.agent_id now))

unfoldable pub pop : AgentInbox → ℕ → AgentInbox × Option AgentMessage
pop b now = pop_from b b.messages now

abbrev pub first : List AgentMessage → Option AgentMessage
first [] = none
first (m ∷ rest) = some m

unfoldable pub peek : AgentInbox → Option AgentMessage
peek b = first b.messages

unfoldable pub size : AgentInbox → ℕ
size b = length b.messages

unfoldable pub clear : AgentInbox → AgentInbox
clear b = record b { messages = [] }

unfoldable pub is_empty : AgentInbox → Bool
is_empty b = length b.messages == 0

unfoldable pub is_full : AgentInbox → Bool
is_full b = leb max_size (length b.messages)

unfoldable pub get_messages_by_priority : AgentInbox → String → List AgentMessage
get_messages_by_priority b p = select (λ m. priority_text m.priority === p) b.messages

unfoldable pub get_messages_by_type : AgentInbox → String → List AgentMessage
get_messages_by_type b t = select (λ m. type_text m.type === t) b.messages

unfoldable pub get_messages_by_sender : AgentInbox → String → List AgentMessage
get_messages_by_sender b sender = select (λ m. m.sender_agent_id === sender) b.messages
