-- ===== src/Communication/Message.antt =====
-- agent-message.ts, and the order in which inboxes and outboxes keep their messages.
use nexus_ai_workspace.Common.{
  ℕ, String, ◌≡◌, Bool, true, false, Option, ltb, ◌==◌, ◌||◌, ◌&&◌, StrictOrder, arith,
}
use nexus_ai_workspace.Priority.{AgentPriority, priority_order}
use nexus_ai_workspace.Values.{Value, Metadata}

pub data MessageType : Type 0 where
  request response notification broadcast error : MessageType

pub data MessageStatus : Type 0 where
  pending sent delivered processed failed : MessageStatus

pub record AgentMessage : Type 0 where
  pub message_id : String
  pub sender_agent_id : String
  pub receiver_agent_id : Option String
  pub conversation_id : Option String
  pub workspace_id : String
  pub request_id : String
  pub trace_id : String
  pub timestamp : ℕ
  pub priority : AgentPriority
  pub type : MessageType
  pub status : MessageStatus
  pub payload : Value
  pub metadata : Metadata

abbrev urgency : AgentMessage → ℕ
urgency m = priority_order m.priority

-- The test of `insertByPriority`: a more urgent priority, or the same one and an older message.
unfoldable pub goes_before : AgentMessage → AgentMessage → Bool
goes_before m other =
    ltb (urgency m) (urgency other)
    || (urgency m == urgency other && ltb m.timestamp other.timestamp)

-- The enum's values.
unfoldable pub type_text : MessageType → String
type_text request = "request"
type_text response = "response"
type_text notification = "notification"
type_text broadcast = "broadcast"
type_text error = "error"

abbrev pub is_broadcast : MessageType → Bool
is_broadcast broadcast = true
is_broadcast _ = false

-- For any two numbers of urgency the test is a strict order.
lexicographic :
    (p q r s t u : ℕ)
    → (ltb p q || (p == q && ltb s t)) ≡ true
    → (ltb q r || (q == r && ltb t u)) ≡ true
    → (ltb p r || (p == r && ltb s u)) ≡ true
lexicographic p q r s t u h k = ground arith

pub goes_before-StrictOrder : StrictOrder goes_before
unfolding goes_before
goes_before-StrictOrder = record {
  irrefl = λ x. ground arith;
  trans = λ x y z h k.
      lexicographic (urgency x) (urgency y) (urgency z) x.timestamp y.timestamp z.timestamp h k;
}
