-- ===== src/Communication/Outbox.antt =====
-- agent-outbox.ts. The clock is an argument.
pub mod Laws
use nexus_ai_workspace.Common.{
  ℕ, String, Bool, true, false, List, [], ◌∷◌, ◌++◌, map, Option, none, some, ◌+◌, ◌*◌, ◌===◌, leb,
  length, if◌then◌else◌, select, insert_before, extract, not,
}
use nexus_ai_workspace.Common.Map.{set}
use nexus_ai_workspace.Values.{Value, date, text, number}
use nexus_ai_workspace.Priority.{priority_text}
use nexus_ai_workspace.Communication.Message.{
  AgentMessage, MessageStatus, pending, sent, failed, goes_before,
}

pub record OutboxMessage : Type 0 where
  pub message : AgentMessage
  pub attempts : ℕ
  pub max_attempts : ℕ
  pub next_retry : Option ℕ
  pub last_error : Option String

pub record AgentOutbox : Type 0 where
  pub messages : List OutboxMessage
  pub failed_messages : List OutboxMessage
  pub agent_id : String

abbrev pub max_size : ℕ
max_size = 1000

abbrev pub max_retry_attempts : ℕ
max_retry_attempts = 3

abbrev pub retry_delay : ℕ
retry_delay = 5000

pub data OutboxError : Type 0 where
  not_from : String → OutboxError
  outbox_full : OutboxError

unfoldable pub create : String → AgentOutbox
create agent_id = record { messages = []; failed_messages = []; agent_id = agent_id }

unfoldable pub insert_by_priority : OutboxMessage → List OutboxMessage → List OutboxMessage
insert_by_priority m messages =
    insert_before (λ other. goes_before m.message other.message) m messages

unfoldable pub wrap : AgentMessage → OutboxMessage
wrap m = record {
  message = record m { status = pending };
  attempts = 0;
  max_attempts = max_retry_attempts;
  next_retry = none;
  last_error = none;
}

unfoldable pub enqueue : AgentOutbox → AgentMessage → AgentOutbox × Option OutboxError
enqueue b m =
    if not (m.sender_agent_id === b.agent_id)
    then (b, some (not_from b.agent_id))
    else if leb max_size (length b.messages)
    then (b, some outbox_full)
    else (record b { messages = insert_by_priority (wrap m) b.messages }, none)

-- `!msg.nextRetry || msg.nextRetry <= now`
abbrev pub is_due : ℕ → OutboxMessage → Bool
is_due now m = elim m.next_retry [ none ↦ true | some at ↦ leb at now ]

unfoldable pub mark_sent : AgentMessage → String → ℕ → ℕ → AgentMessage
mark_sent m agent attempts now = record m {
  status = sent;
  metadata =
      set "sentFromAgent" (text agent)
        (set "attempt" (number attempts) (set "sentAt" (date now) m.metadata));
}

abbrev pub dequeued :
    AgentOutbox
    → ℕ
    → Option (OutboxMessage × List OutboxMessage)
    → AgentOutbox × Option AgentMessage
dequeued b now none = (b, none)
dequeued b now (some (m, rest)) =
    (record b { messages = rest }, some (mark_sent m.message b.agent_id (m.attempts + 1) now))

-- The message leaves the outbox for good; the attempt is counted on the object that leaves.
unfoldable pub dequeue : AgentOutbox → ℕ → AgentOutbox × Option AgentMessage
dequeue b now = dequeued b now (extract (is_due now) b.messages)

abbrev pub has_id : String → OutboxMessage → Bool
has_id id m = m.message.message_id === id

unfoldable pub for_retry : OutboxMessage → ℕ → OutboxMessage
for_retry m now = record m {
  next_retry = some (now + retry_delay * m.attempts);
  message = record m.message {
    status = pending;
    metadata =
        set "retryAttempt" (number (m.attempts + 1))
          (set "retryScheduledAt" (date now) m.message.metadata);
  };
}

abbrev pub retried :
    AgentOutbox → ℕ → Option (OutboxMessage × List OutboxMessage) → AgentOutbox × Bool
retried b now none = (b, false)
retried b now (some (m, rest)) =
    if leb m.max_attempts m.attempts
    then (record b { failed_messages = rest ++ m ∷ [] }, false)
    else (
      record b {
        messages = insert_by_priority (for_retry m now) b.messages;
        failed_messages = rest;
      },
      true,
    )

unfoldable pub retry : AgentOutbox → String → ℕ → AgentOutbox × Bool
retry b id now = retried b now (extract (has_id id) b.failed_messages)

unfoldable pub clear : AgentOutbox → AgentOutbox
clear b = record b { messages = []; failed_messages = [] }

unfoldable pub mark_failed : OutboxMessage → String → ℕ → OutboxMessage
mark_failed m problem now = record m {
  last_error = some problem;
  message = record m.message {
    status = failed;
    metadata = set "error" (text problem) (set "failedAt" (date now) m.message.metadata);
  };
}

abbrev pub marked_as_failed :
    AgentOutbox → String → ℕ → Option (OutboxMessage × List OutboxMessage) → AgentOutbox
marked_as_failed b problem now none = b
marked_as_failed b problem now (some (m, rest)) = record b {
  messages = rest;
  failed_messages = b.failed_messages ++ mark_failed m problem now ∷ [];
}

unfoldable pub mark_as_failed : AgentOutbox → String → String → ℕ → AgentOutbox
mark_as_failed b id problem now = marked_as_failed b problem now (extract (has_id id) b.messages)

unfoldable pub size : AgentOutbox → ℕ
size b = length b.messages

unfoldable pub get_failed_count : AgentOutbox → ℕ
get_failed_count b = length b.failed_messages

unfoldable pub get_pending_messages : AgentOutbox → List AgentMessage
get_pending_messages b = map (λ m. m.message) b.messages

unfoldable pub get_failed_messages : AgentOutbox → List AgentMessage
get_failed_messages b = map (λ m. m.message) b.failed_messages

unfoldable pub get_messages_by_priority : AgentOutbox → String → List AgentMessage
get_messages_by_priority b p =
    map (λ m. m.message) (select (λ m. priority_text m.message.priority === p) b.messages)
