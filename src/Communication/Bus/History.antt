-- ===== src/Communication/Bus/History.antt =====
-- Every call keeps the bus valid.
use nexus_ai_workspace.Common.{
  ℕ, String, ◌≡◌, refl, ◌∙◌, inl, inr, List, [], ◌∷◌, Option, none, some, Bool-cases, Option-cases,
  arith,
}
use nexus_ai_workspace.Common.Map.{get, set, has, delete-Distinct, Entries-get, Entries-delete}
use nexus_ai_workspace.Values.{Metadata}
use nexus_ai_workspace.Communication.Message.{AgentMessage}
use nexus_ai_workspace.Communication.Inbox.{AgentInbox, InboxError, error_text}
use nexus_ai_workspace.Communication.Inbox
use nexus_ai_workspace.Communication.Inbox.Laws as InboxLaws
use nexus_ai_workspace.Communication.Outbox
use nexus_ai_workspace.Communication.Outbox.Laws as OutboxLaws
use nexus_ai_workspace.Communication.Bus.{
  RegisteredAgent, AgentBus, create, log_message, touch, as_broadcast, broadcast_from, broadcast,
  fail_at_sender, broadcast_sent, pushed, send_to, direct_receiver, send_from, send, new_agent,
  register, unregister, clear_message_log,
}
use nexus_ai_workspace.Communication.Bus.Laws.{
  IsAgent, IsValid, touch-IsAgent, with_inbox-IsAgent, deliver_all-Entries, deliver_all-Distinct,
  set_agent-IsValid, log_message-IsValid,
}

fail_at_sender-IsValid :
    (b : AgentBus) (m : AgentMessage) (sender : RegisteredAgent) (problem : String) (now : ℕ)
    → IsAgent m.sender_agent_id sender
    → IsValid b
    → IsValid (fail_at_sender b m sender problem now).0
fail_at_sender-IsValid b m sender problem now h v =
    set_agent-IsValid b m.sender_agent_id _
      (record {
        own_id = h.own_id;
        inbox_id = h.inbox_id;
        outbox_id =
            OutboxLaws.mark_as_failed-agent_id sender.outbox m.message_id problem now ∙ h.outbox_id;
        inbox = h.inbox;
        outbox = OutboxLaws.mark_as_failed-IsValid sender.outbox m.message_id problem now h.outbox;
      })
      v

broadcast_from-IsValid :
    (b : AgentBus) (m : AgentMessage) (now : ℕ) (sender : Option RegisteredAgent)
    → get m.sender_agent_id b.agents ≡ sender
    → IsValid b
    → IsValid (broadcast_from b m now sender).0
broadcast_from-IsValid b m now none e v = v
broadcast_from-IsValid b m now (some a) e v =
    let id = m.sender_agent_id in
    let h = touch-IsAgent id a now (Entries-get IsAgent id b.agents a v.filed e) in
    let t = set_agent-IsValid b id (touch a now) h v in
    let agents = set id (touch a now) b.agents in
    record {
      bounded = v.bounded;
      distinct = deliver_all-Distinct id (as_broadcast m now) now agents t.distinct;
      filed = deliver_all-Entries id (as_broadcast m now) now agents t.filed;
    }

broadcast-IsValid :
    (b : AgentBus) (m : AgentMessage) (now : ℕ) → IsValid b → IsValid (broadcast b m now).0
unfolding broadcast
broadcast-IsValid b m now v =
    broadcast_from-IsValid (log_message b m) m now _ refl (log_message-IsValid b m v)

broadcast_sent-IsValid : (r : AgentBus × Option ℕ) → IsValid r.0 → IsValid (broadcast_sent r).0
broadcast_sent-IsValid (b, none) v = v
broadcast_sent-IsValid (b, some n) v = v

pushed-IsValid :
    (b : AgentBus) (m : AgentMessage) (id : String) (receiver : RegisteredAgent)
    (r : AgentInbox × Option InboxError) (now : ℕ)
    → IsAgent id receiver
    → r.0.agent_id ≡ id
    → InboxLaws.IsValid r.0
    → IsValid b
    → IsValid (pushed b m id receiver r now).0
pushed-IsValid b m id receiver (inbox, none) now h e iv v =
    set_agent-IsValid b id _ (touch-IsAgent id _ now (with_inbox-IsAgent id receiver inbox e iv h))
      v
pushed-IsValid b m id receiver (inbox, some x) now h e iv v =
    elim (Option-cases (get m.sender_agent_id b.agents)) [
      | inl g ↦ rw (g, pushed) v
      | inr (sender, g) ↦
          rw (g, pushed)
            (fail_at_sender-IsValid b m sender (error_text x) now
              (Entries-get IsAgent m.sender_agent_id b.agents sender v.filed g) v)
    ]

send_to-IsValid :
    (b : AgentBus) (m : AgentMessage) (sender : RegisteredAgent) (id : String)
    (receiver : Option RegisteredAgent) (now : ℕ)
    → IsAgent m.sender_agent_id sender
    → get id b.agents ≡ receiver
    → IsValid b
    → IsValid (send_to b m sender id receiver now).0
send_to-IsValid b m sender id none now h e v = fail_at_sender-IsValid b m sender _ now h v
send_to-IsValid b m sender id (some receiver) now h e v =
    let r = Entries-get IsAgent id b.agents receiver v.filed e in
    pushed-IsValid b m id receiver (Inbox.push receiver.inbox m now) now r
      (InboxLaws.push-agent_id receiver.inbox m now ∙ r.inbox_id)
      (InboxLaws.push-IsValid receiver.inbox m now r.inbox) v

send_from-IsValid :
    (b : AgentBus) (m : AgentMessage) (sender : Option RegisteredAgent) (now : ℕ)
    → get m.sender_agent_id b.agents ≡ sender
    → IsValid b
    → IsValid (send_from b m sender now).0
send_from-IsValid b m none now e v = v
send_from-IsValid b m (some a) now e v =
    let id = m.sender_agent_id in
    let h = touch-IsAgent id a now (Entries-get IsAgent id b.agents a v.filed e) in
    let touched = record b { agents = set id (touch a now) b.agents } in
    let t = set_agent-IsValid b id (touch a now) h v in
    elim (Option-cases (direct_receiver m)) [
      | inl g ↦ rw (g, send_from) (broadcast_sent-IsValid _ (broadcast-IsValid touched m now t))
      | inr (to, g) ↦ rw (g, send_from) (send_to-IsValid touched m (touch a now) to _ now h refl t)
    ]

send-IsValid : (b : AgentBus) (m : AgentMessage) (now : ℕ) → IsValid b → IsValid (send b m now).0
unfolding send
send-IsValid b m now v =
    send_from-IsValid (log_message b m) m _ now refl (log_message-IsValid b m v)

register-IsValid :
    (b : AgentBus) (id : String) (metadata : Metadata) (now : ℕ)
    → IsValid b
    → IsValid (register b id metadata now).0
unfolding register new_agent Inbox.create Outbox.create
register-IsValid b id metadata now v = elim (Bool-cases (has id b.agents)) [
  | inl e ↦ rw e v
  | inr e ↦ rw e (
      set_agent-IsValid b id (new_agent id metadata now)
        (record {
          own_id = refl;
          inbox_id = refl;
          outbox_id = refl;
          inbox = InboxLaws.create-IsValid id;
          outbox = OutboxLaws.create-IsValid id;
        })
        v)
]

unregister-IsValid : (b : AgentBus) (id : String) → IsValid b → IsValid (unregister b id).0
unfolding unregister
unregister-IsValid b id v = elim (Bool-cases (has id b.agents)) [
  | inl e ↦ rw e (record {
    bounded = v.bounded;
    distinct = delete-Distinct id b.agents v.distinct;
    filed = Entries-delete IsAgent id b.agents v.filed;
  })
  | inr e ↦ rw e v
]

-- A call on the inbox of an agent, as `getAgentInbox` and `findAgent` hand it out.
unfoldable pub on_inbox : AgentBus → String → InboxLaws.Call → Option RegisteredAgent → AgentBus
on_inbox b id c none = b
on_inbox b id c (some a) = record b {
  agents = set id (record a { inbox = InboxLaws.step a.inbox c }) b.agents;
}

-- A call on the outbox of an agent, as `getAgentOutbox` and `findAgent` hand it out.
unfoldable pub on_outbox : AgentBus → String → OutboxLaws.Call → Option RegisteredAgent → AgentBus
on_outbox b id c none = b
on_outbox b id c (some a) = record b {
  agents = set id (record a { outbox = OutboxLaws.step a.outbox c }) b.agents;
}

on_inbox-IsValid :
    (b : AgentBus) (id : String) (c : InboxLaws.Call) (o : Option RegisteredAgent)
    → get id b.agents ≡ o
    → IsValid b
    → IsValid (on_inbox b id c o)
unfolding on_inbox
on_inbox-IsValid b id c none e v = v
on_inbox-IsValid b id c (some a) e v =
    let h = Entries-get IsAgent id b.agents a v.filed e in
    set_agent-IsValid b id _
      (with_inbox-IsAgent id a (InboxLaws.step a.inbox c)
        (InboxLaws.step-agent_id a.inbox c ∙ h.inbox_id) (InboxLaws.step-IsValid a.inbox c h.inbox)
        h)
      v

on_outbox-IsValid :
    (b : AgentBus) (id : String) (c : OutboxLaws.Call) (o : Option RegisteredAgent)
    → get id b.agents ≡ o
    → IsValid b
    → IsValid (on_outbox b id c o)
unfolding on_outbox
on_outbox-IsValid b id c none e v = v
on_outbox-IsValid b id c (some a) e v =
    let h = Entries-get IsAgent id b.agents a v.filed e in
    set_agent-IsValid b id _
      (record {
        own_id = h.own_id;
        inbox_id = h.inbox_id;
        outbox_id = OutboxLaws.step-agent_id a.outbox c ∙ h.outbox_id;
        inbox = h.inbox;
        outbox = OutboxLaws.step-IsValid a.outbox c h.outbox;
      })
      v

-- The calls that may change the bus, or an inbox or an outbox that it holds.
pub data Call : Type 0 where
  sends broadcasts : AgentMessage → (now : ℕ) → Call
  registers : String → Metadata → (now : ℕ) → Call
  unregisters : String → Call
  clears_log : Call
  uses_inbox : String → InboxLaws.Call → Call
  uses_outbox : String → OutboxLaws.Call → Call

unfoldable pub step : AgentBus → Call → AgentBus
step b (sends m now) = (send b m now).0
step b (broadcasts m now) = (broadcast b m now).0
step b (registers id metadata now) = (register b id metadata now).0
step b (unregisters id) = (unregister b id).0
step b clears_log = clear_message_log b
step b (uses_inbox id c) = on_inbox b id c (get id b.agents)
step b (uses_outbox id c) = on_outbox b id c (get id b.agents)

unfoldable pub run : AgentBus → List Call → AgentBus
run b [] = b
run b (c ∷ cs) = run (step b c) cs

step-IsValid : (b : AgentBus) (c : Call) → IsValid b → IsValid (step b c)
unfolding step clear_message_log
step-IsValid b (sends m now) v = send-IsValid b m now v
step-IsValid b (broadcasts m now) v = broadcast-IsValid b m now v
step-IsValid b (registers id metadata now) v = register-IsValid b id metadata now v
step-IsValid b (unregisters id) v = unregister-IsValid b id v
step-IsValid b (uses_inbox id c) v = on_inbox-IsValid b id c _ refl v
step-IsValid b (uses_outbox id c) v = on_outbox-IsValid b id c _ refl v
step-IsValid b clears_log v = record {
  bounded = omega arith;
  distinct = v.distinct;
  filed = v.filed;
}

run-IsValid : (b : AgentBus) (cs : List Call) → IsValid b → IsValid (run b cs)
unfolding run
run-IsValid b [] v = v
run-IsValid b (c ∷ cs) v = run-IsValid (step b c) cs (step-IsValid b c v)

-- After any sequence of calls on a new bus, and on the inboxes and outboxes of its agents: the log
-- has at most 1000 messages; each agent is filed once, under its own id, which its inbox and outbox
-- carry too; each inbox is sorted, within its limit of 1000 and holds delivered messages only; and
-- each outbox is sorted and holds messages with zero attempts out of three.
pub bus_run-IsValid : (cs : List Call) → IsValid (run create cs)
unfolding create
bus_run-IsValid cs =
    run-IsValid create cs (record { bounded = omega arith; distinct = tt; filed = tt })
