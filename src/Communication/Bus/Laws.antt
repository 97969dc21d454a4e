-- ===== src/Communication/Bus/Laws.antt =====
-- The bus between two calls.
use nexus_ai_workspace.Common.{
  ℕ, String, ◌≡◌, refl, ap, ◌∙◌, inl, inr, [], ◌∷◌, Option, none, some, Bool-cases, arith, length,
  ◌≤◌, if◌then◌else◌, ◌===◌,
}
use nexus_ai_workspace.Common.Map.{Map, get, set, Distinct, set-Distinct, Entries, Entries-set}
use nexus_ai_workspace.Communication.Message.{AgentMessage}
use nexus_ai_workspace.Communication.Inbox.{AgentInbox, InboxError, error_text}
use nexus_ai_workspace.Communication.Inbox
use nexus_ai_workspace.Communication.Inbox.Laws.{push-IsValid, push-agent_id}
use nexus_ai_workspace.Communication.Inbox.Laws as InboxLaws
use nexus_ai_workspace.Communication.Outbox.Laws as OutboxLaws
use nexus_ai_workspace.Communication.Outbox.Laws.{mark_as_failed-IsValid, mark_as_failed-agent_id}
use nexus_ai_workspace.Communication.Log.{add_to_log-le}
use nexus_ai_workspace.Communication.Bus.{
  RegisteredAgent, AgentBus, max_log_size, log_message, touch, received, receive, deliver_all,
}

-- An agent is filed under its id, which its inbox and its outbox have too.
pub record IsAgent (id : String) (a : RegisteredAgent) : Type 0 where
  pub own_id : a.agent_id ≡ id
  pub inbox_id : a.inbox.agent_id ≡ id
  pub outbox_id : a.outbox.agent_id ≡ id
  pub inbox : InboxLaws.IsValid a.inbox
  pub outbox : OutboxLaws.IsValid a.outbox

pub record IsValid (b : AgentBus) : Type 0 where
  pub bounded : length b.message_log ≤ max_log_size
  pub distinct : Distinct b.agents
  pub filed : Entries IsAgent b.agents

pub touch-IsAgent :
    (id : String) (a : RegisteredAgent) (now : ℕ) → IsAgent id a → IsAgent id (touch a now)
touch-IsAgent id a now v = record {
  own_id = v.own_id;
  inbox_id = v.inbox_id;
  outbox_id = v.outbox_id;
  inbox = v.inbox;
  outbox = v.outbox;
}

pub with_inbox-IsAgent :
    (id : String) (a : RegisteredAgent) (inbox : AgentInbox)
    → inbox.agent_id ≡ id
    → InboxLaws.IsValid inbox
    → IsAgent id a
    → IsAgent id (record a { inbox = inbox })
with_inbox-IsAgent id a inbox e iv v = record {
  own_id = v.own_id;
  inbox_id = e;
  outbox_id = v.outbox_id;
  inbox = iv;
  outbox = v.outbox;
}

received-IsAgent :
    (id : String) (a : RegisteredAgent) (now : ℕ) (r : AgentInbox × Option InboxError)
    → r.0.agent_id ≡ id
    → InboxLaws.IsValid r.0
    → IsAgent id a
    → IsAgent id (received a now r).0
received-IsAgent id a now (inbox, none) e iv v =
    touch-IsAgent id _ now (with_inbox-IsAgent id a inbox e iv v)
received-IsAgent id a now (inbox, some x) e iv v = with_inbox-IsAgent id a inbox e iv v

receive-IsAgent :
    (id : String) (a : RegisteredAgent) (m : AgentMessage) (now : ℕ)
    → IsAgent id a
    → IsAgent id (receive id a m now).0
unfolding receive
receive-IsAgent id a m now v =
    let m' = record m { receiver_agent_id = some id } in
    received-IsAgent id a now (Inbox.push a.inbox m' now)
      (push-agent_id a.inbox m' now ∙ v.inbox_id) (push-IsValid a.inbox m' now v.inbox) v

pub deliver_all-Entries :
    (sender : String) (m : AgentMessage) (now : ℕ) (agents : Map RegisteredAgent)
    → Entries IsAgent agents
    → Entries IsAgent (deliver_all sender m now agents).0
unfolding deliver_all
deliver_all-Entries sender m now [] h = tt
deliver_all-Entries sender m now ((id, a) ∷ agents) h = elim (Bool-cases (id === sender)) [
  | inl e ↦ rw e (h.0, deliver_all-Entries sender m now agents h.1)
  | inr e ↦ rw e (receive-IsAgent id a m now h.0, deliver_all-Entries sender m now agents h.1)
]

-- The agent under `id` after the deliveries of a broadcast.
abbrev pub after_delivery :
    String → AgentMessage → ℕ → String → Option RegisteredAgent → Option RegisteredAgent
after_delivery sender m now id none = none
after_delivery sender m now id (some a) =
    if id === sender then some a else some (receive id a m now).0

-- After the deliveries of a broadcast each id has the agent that it had before, and none where it
-- had none; every agent but the sender has received the message.
pub get-deliver_all :
    (sender : String) (m : AgentMessage) (now : ℕ) (agents : Map RegisteredAgent) (id : String)
    → get id (deliver_all sender m now agents).0 ≡ after_delivery sender m now id (get id agents)
unfolding deliver_all get
get-deliver_all sender m now [] id = refl
get-deliver_all sender m now ((j, a) ∷ agents) id =
    ground (arith, get-deliver_all sender m now agents id)

pub deliver_all-Distinct :
    (sender : String) (m : AgentMessage) (now : ℕ) (agents : Map RegisteredAgent)
    → Distinct agents
    → Distinct (deliver_all sender m now agents).0
unfolding deliver_all
deliver_all-Distinct sender m now [] d = tt
deliver_all-Distinct sender m now ((j, a) ∷ agents) d =
    let absent = get-deliver_all sender m now agents j ∙ ap (after_delivery sender m now j) d.0 in
    elim (Bool-cases (j === sender)) [
      | inl e ↦ rw e (absent, deliver_all-Distinct sender m now agents d.1)
      | inr e ↦ rw e (absent, deliver_all-Distinct sender m now agents d.1)
    ]

-- A change of one agent.
pub set_agent-IsValid :
    (b : AgentBus) (id : String) (a : RegisteredAgent)
    → IsAgent id a
    → IsValid b
    → IsValid (record b { agents = set id a b.agents })
set_agent-IsValid b id a h v = record {
  bounded = v.bounded;
  distinct = set-Distinct id a b.agents v.distinct;
  filed = Entries-set IsAgent id a b.agents h v.filed;
}

pub log_message-IsValid : (b : AgentBus) (m : AgentMessage) → IsValid b → IsValid (log_message b m)
unfolding log_message
log_message-IsValid b m v = record {
  bounded = add_to_log-le max_log_size m b.message_log v.bounded;
  distinct = v.distinct;
  filed = v.filed;
}
