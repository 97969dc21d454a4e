-- ===== src/Communication/Bus/Broadcast.antt =====
-- Whom a broadcast reaches, and what it leaves in the log.
use nexus_ai_workspace.Common.{
  ℕ, suc, String, ◌≡◌, refl, ap, ◌∙◌, inl, inr, [], ◌∷◌, ◌++◌, Option, none, some, true, false,
  Bool, Bool-cases, Option-cases, arith, length, ◌≤◌, ◌+◌, if◌then◌else◌, ◌===◌, ===_refl, is_some,
  ltb, not, length-append,
}
use mathlib.Core.List.{append_assoc}
use nexus_ai_workspace.Common.Map.{Map, get, set, Entries, Entries-get}
use nexus_ai_workspace.Communication.Message.{AgentMessage}
use nexus_ai_workspace.Communication.Inbox.{AgentInbox, InboxError, max_size, is_for_other}
use nexus_ai_workspace.Communication.Inbox
use nexus_ai_workspace.Communication.Inbox.Laws as InboxLaws
use nexus_ai_workspace.Communication.Log.{add_to_log, add_to_log_room}
use nexus_ai_workspace.Communication.Bus.{
  RegisteredAgent, AgentBus, max_log_size, log_message, touch, as_broadcast, received, receive,
  deliver_all, broadcast_from, broadcast, broadcast_sent, direct_receiver, send_from, send,
}
use nexus_ai_workspace.Communication.Bus.Laws.{IsAgent, IsValid, set_agent-IsValid, touch-IsAgent}

abbrev pub has_room : AgentInbox → Bool
has_room inbox = ltb (length inbox.messages) max_size

-- The agents other than the sender whose inboxes have room.
abbrev pub reachable : String → Map RegisteredAgent → ℕ
reachable sender [] = 0
reachable sender ((id, a) ∷ agents) =
    let n = reachable sender agents in
    if id === sender then n else if has_room a.inbox then suc n else n

own_message : (id : String) → is_for_other (some id) id ≡ false
unfolding is_for_other
own_message id = ground (arith, ===_refl id)

-- A message that carries an agent's own id gets into its inbox exactly when there is room.
pub push-has_room :
    (inbox : AgentInbox) (m : AgentMessage) (id : String) (now : ℕ)
    → inbox.agent_id ≡ id
    → m.receiver_agent_id ≡ some id
    → not (is_some (Inbox.push inbox m now).1) ≡ has_room inbox
push-has_room inbox m id now e to = elim (InboxLaws.push-perm inbox m now) [
  | inl (inl other, _, _) ↦ let own = own_message id in let o = rw (to, e) at other in cc
  | inl (inr full, _, thrown) ↦ elim (Option-cases (Inbox.push inbox m now).1) [
    | inl x ↦ absurd (thrown x)
    | inr (x, y) ↦ rw y (ground arith)
  ]
  | inr (_, room, _, quiet) ↦ rw quiet (ground arith)
]

received_flag :
    (a : RegisteredAgent) (now : ℕ) (r : AgentInbox × Option InboxError)
    → (received a now r).1 ≡ not (is_some r.1)
received_flag a now (inbox, none) = refl
received_flag a now (inbox, some e) = refl

receive-has_room :
    (id : String) (a : RegisteredAgent) (m : AgentMessage) (now : ℕ)
    → a.inbox.agent_id ≡ id
    → (receive id a m now).1 ≡ has_room a.inbox
unfolding receive
receive-has_room id a m now e =
    let m' = record m { receiver_agent_id = some id } in
    received_flag a now (Inbox.push a.inbox m' now) ∙ push-has_room a.inbox m' id now e refl

deliver_all-reachable :
    (sender : String) (m : AgentMessage) (now : ℕ) (agents : Map RegisteredAgent)
    → Entries IsAgent agents
    → (deliver_all sender m now agents).1 ≡ reachable sender agents
unfolding deliver_all
deliver_all-reachable sender m now [] h = refl
deliver_all-reachable sender m now ((id, a) ∷ agents) h = elim (Bool-cases (id === sender)) [
  | inl e ↦ rw e (deliver_all-reachable sender m now agents h.1)
  | inr e ↦
      rw
        (e, receive-has_room id a m now h.0.inbox_id, deliver_all-reachable sender m now agents h.1)
        refl
]

reachable-touch :
    (sender : String) (a : RegisteredAgent) (agents : Map RegisteredAgent)
    → reachable sender (set sender a agents) ≡ reachable sender agents
unfolding set
reachable-touch sender a [] = ground arith
reachable-touch sender a ((id, b) ∷ agents) = ground (arith, reachable-touch sender a agents)

-- On a valid bus `broadcast` for a registered sender returns the number of the other agents whose
-- inboxes have room; for a sender that is not registered it throws.
pub broadcast-reachable :
    (b : AgentBus) (m : AgentMessage) (now : ℕ)
    → IsValid b
    → (broadcast b m now).1 ≡ (
        if is_some (get m.sender_agent_id b.agents)
        then some (reachable m.sender_agent_id b.agents)
        else none)
unfolding broadcast log_message
broadcast-reachable b m now v = elim (Option-cases (get m.sender_agent_id b.agents)) [
  | inl e ↦ rw e refl
  | inr (a, e) ↦
      let id = m.sender_agent_id in
      let h = touch-IsAgent id a now (Entries-get IsAgent id b.agents a v.filed e) in
      let t = set_agent-IsValid b id (touch a now) h v in
      rw e (
        ap some (
          deliver_all-reachable id (as_broadcast m now) now (set id (touch a now) b.agents) t.filed
          ∙ reachable-touch id (touch a now) b.agents))
]

broadcast_from-log :
    (b : AgentBus) (m : AgentMessage) (now : ℕ) (sender : Option RegisteredAgent)
    → (broadcast_from b m now sender).0.message_log ≡ b.message_log
broadcast_from-log b m now none = refl
broadcast_from-log b m now (some a) = refl

broadcast_sent-log : (r : AgentBus × Option ℕ) → (broadcast_sent r).0.message_log ≡ r.0.message_log
broadcast_sent-log (b, none) = refl
broadcast_sent-log (b, some n) = refl

send_from-log :
    (b : AgentBus) (m : AgentMessage) (now : ℕ) (sender : Option RegisteredAgent)
    → direct_receiver m ≡ none
    → is_some sender ≡ true
    → (send_from b m sender now).0.message_log ≡ add_to_log max_log_size m b.message_log
unfolding broadcast log_message
send_from-log b m now none to e = cc
send_from-log b m now (some a) to e =
    rw (to, send_from)
      (broadcast_sent-log (broadcast touched m now)
        ∙ broadcast_from-log (log_message touched m) m now _)
  where
    touched : AgentBus
    touched = record b { agents = set m.sender_agent_id (touch a now) b.agents }

-- A message that `send` passes on to `broadcast` is logged twice: where its sender is registered
-- and the log has room for two more messages, the log ends up with two copies of it added.
pub send_broadcast_log :
    (b : AgentBus) (m : AgentMessage) (now : ℕ) (sender : RegisteredAgent)
    → direct_receiver m ≡ none
    → get m.sender_agent_id b.agents ≡ some sender
    → length b.message_log + 2 ≤ max_log_size
    → (send b m now).0.message_log ≡ b.message_log ++ m ∷ m ∷ []
unfolding send log_message
send_broadcast_log b m now sender to e room =
    let once = add_to_log_room max_log_size m b.message_log (omega arith) in
    let twice =
      add_to_log_room max_log_size m (b.message_log ++ m ∷ [])
        (omega (arith, length-append b.message_log (m ∷ []))) in
    send_from-log (log_message b m) m now (get m.sender_agent_id b.agents) to (rw e refl)
    ∙ ap (add_to_log max_log_size m) once
    ∙ twice
    ∙ append_assoc b.message_log (m ∷ []) (m ∷ [])
