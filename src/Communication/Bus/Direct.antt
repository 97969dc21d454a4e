-- ===== src/Communication/Bus/Direct.antt =====
-- The outcome of a direct message.
use nexus_ai_workspace.Common.{
  ℕ, String, ◌≡◌, refl, sym, ap, ◌∙◌, inl, inr, Option, none, some, false, Bool, Bool-cases,
  Option-cases, arith, ◌===◌, ===_eq, is_some, not,
}
use nexus_ai_workspace.Common.Map.{Map, get, set, get-set, Entries-get}
use nexus_ai_workspace.Communication.Message.{AgentMessage}
use nexus_ai_workspace.Communication.Inbox.{AgentInbox, InboxError, error_text}
use nexus_ai_workspace.Communication.Inbox
use nexus_ai_workspace.Communication.Bus.{
  RegisteredAgent, AgentBus, log_message, touch, pushed, send_to, direct_receiver, send_from, send,
}
use nexus_ai_workspace.Communication.Bus.Laws.{IsAgent, IsValid, touch-IsAgent, set_agent-IsValid}
use nexus_ai_workspace.Communication.Bus.Broadcast.{has_room, push-has_room}

abbrev pub reaches : (sender receiver : Option RegisteredAgent) → Bool
reaches none receiver = false
reaches (some s) none = false
reaches (some s) (some r) = has_room r.inbox

pushed_flag :
    (b : AgentBus) (m : AgentMessage) (id : String) (receiver : RegisteredAgent)
    (r : AgentInbox × Option InboxError) (now : ℕ)
    → (pushed b m id receiver r now).1 ≡ not (is_some r.1)
pushed_flag b m id receiver (inbox, none) now = refl
pushed_flag b m id receiver (inbox, some e) now =
    elim (Option-cases (get m.sender_agent_id b.agents)) [
      | inl g ↦ rw (g, pushed) refl
      | inr (a, g) ↦ rw (g, pushed) refl
    ]

direct_receiver-eq :
    (m : AgentMessage) (id : String) → direct_receiver m ≡ some id → m.receiver_agent_id ≡ some id
direct_receiver-eq m id e = ground arith

send_to_flag :
    (b : AgentBus) (m : AgentMessage) (sender a : RegisteredAgent) (id : String)
    (receiver : Option RegisteredAgent) (now : ℕ)
    → direct_receiver m ≡ some id
    → ((r : RegisteredAgent) → receiver ≡ some r → r.inbox.agent_id ≡ id)
    → (send_to b m sender id receiver now).1 ≡ reaches (some a) receiver
send_to_flag b m sender a id none now to own = refl
send_to_flag b m sender a id (some r) now to own =
    pushed_flag b m id r (Inbox.push r.inbox m now) now
    ∙ push-has_room r.inbox m id now (own r refl) (direct_receiver-eq m id to)

-- The touch of the sender does not change what is reached.
reaches-touch :
    (agents : Map RegisteredAgent) (sender id : String) (a : RegisteredAgent) (now : ℕ)
    → get sender agents ≡ some a
    → reaches (some a) (get id (set sender (touch a now) agents)) ≡ reaches (some a) (get id agents)
reaches-touch agents sender id a now e = elim (Bool-cases (sender === id)) [
  | inl s ↦
      let same = ap (λ k. get k agents) (sym (===_eq sender id s)) ∙ e in
      rw (get-set sender id (touch a now) agents, s, same) refl
  | inr n ↦ rw (get-set sender id (touch a now) agents, n) refl
]

-- For a message with a receiver that is not a broadcast, `send` on a valid bus returns true exactly
-- if its sender and its receiver are registered and the receiver's inbox has room.
pub send_direct :
    (b : AgentBus) (m : AgentMessage) (now : ℕ) (id : String)
    → IsValid b
    → direct_receiver m ≡ some id
    → (send b m now).1 ≡ reaches (get m.sender_agent_id b.agents) (get id b.agents)
unfolding send log_message
send_direct b m now id v to = elim (Option-cases (get m.sender_agent_id b.agents)) [
  | inl e ↦ rw e refl
  | inr (a, e) ↦
      let sid = m.sender_agent_id in
      let logged = log_message b m in
      let touched = record logged { agents = set sid (touch a now) b.agents } in
      let h = touch-IsAgent sid a now (Entries-get IsAgent sid b.agents a v.filed e) in
      let t = set_agent-IsValid b sid (touch a now) h v in
      rw (e, to, send_from)
        (send_to_flag touched m (touch a now) a id (get id touched.agents) now to
            (λ r g. (Entries-get IsAgent id touched.agents r t.filed g).inbox_id)
          ∙ reaches-touch b.agents sid id a now e)
]
